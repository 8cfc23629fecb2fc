-- ===== src/Ota/Runs.antt =====
-- The theorems on firmware updates at concrete inputs: a file of two bytes, and a digest of one byte.
use nu_maker_mbed_aliyun_io.Base.{
  same_bytes, ℕ, ◌+◌, ◌≤◌, ◌≡◌, refl, arith, true, none, some, List, [], ◌∷◌, ◌++◌, take, drop,
  length, length-take, length-drop, replicate, pos, if◌then◌else◌, ap, ◌∙◌,
}
use nu_maker_mbed_aliyun_io.Infra.Hex.{hex2char}
use nu_maker_mbed_aliyun_io.Ota.{
  Ota, Channel, Outside, broken, received, fetch_count, fetch_renew, fetch_from, fetch_open,
  fetch_sha256, fetch_md5, fetch_yield, enter_fetching, is_fetch_finish, ioctl, command, check_md5,
  hex_text, c_text, pushed, fetched, fota, none_type, fail_return,
}
use nu_maker_mbed_aliyun_io.Ota.Push.{
  Parser, push_fota, push_data, start_fota, get_params, get_url, get_md5, get_size, key_message,
  text_success,
}
use nu_maker_mbed_aliyun_io.Ota.Fota.{
  Turn, Updated, success, sync_with, perform_sync, fota_loop, turn_on, turn_received, turn_stored,
  check_image, image_verdict, reset_size,
}
use nu_maker_mbed_aliyun_io.Ota.Fota.Digest.{Limits}
use nu_maker_mbed_aliyun_io.Ota.Fota.Integrity.{perform_sync-IsSound}
use nu_maker_mbed_aliyun_io.Ota.Fota.Stuck.{Fails, GivesUp, perform_sync-GivesUp, push_fota-Stale}
use nu_maker_mbed_aliyun_io.Ota.Fota.Place.{Works}
use nu_maker_mbed_aliyun_io.Ota.Fota.Resume.{perform_sync-stores}
use nu_maker_mbed_aliyun_io.Ota.Fota.Complete.{GoesWell, IsComplete, perform_sync-IsComplete}

abbrev file : List ℕ
file = 65 ∷ 66 ∷ []

abbrev digest : List ℕ → List ℕ
digest bytes = 0x17 ∷ []

abbrev channel : Channel
channel = record { url = b'u' ∷ []; offset = 0; fetch_size = 0 }

abbrev announced : Ota
announced = record {
  state = pushed;
  type = fota;
  size_last_fetched = 0;
  size_fetched = 0;
  size_file = 2;
  purl = some (b'u' ∷ []);
  version = some (b'1' ∷ []);
  md5sum = b'1' ∷ b'7' ∷ replicate 31 0;
  md5 = none;
  sha256 = none;
  ch_fetch = some channel;
  cota_url = none;
  err = pos 0;
}

-- A server that gives one byte of the file after the other.
abbrev serving : Outside
serving = record {
  alloc_md5 = true;
  alloc_sha256 = true;
  renew_md5 = true;
  renew_sha256 = true;
  opens = λ url offset. true;
  fetch = λ c. received (take 1 (drop (c.offset + c.fetch_size) file));
  report = none;
}

abbrev failing : Outside
failing = record serving { fetch = λ c. broken 4 }

abbrev turn : Outside → Turn
turn w = record { outside = w; writes = true; report = none; check_report = none }

abbrev turns : List Turn
turns = turn serving ∷ turn serving ∷ []

take-append-drop : (l : List ℕ) → l ≡ take 1 l ++ drop 1 l
take-append-drop [] = refl
take-append-drop (x ∷ l) = refl

serving-Works : Works file serving
serving-Works = (
  λ c bytes e. (
    drop 1 (drop (c.offset + c.fetch_size) file),
    take-append-drop (drop (c.offset + c.fetch_size) file)
        ∙ ap (λ b. b ++ drop 1 (drop (c.offset + c.fetch_size) file)) (received-bytes e),
  ),
  (refl, refl),
)
  where
    received-bytes : {a b : List ℕ} → received a ≡ received b → a ≡ b
    received-bytes e = cc

serving-Limits : Limits 4 serving
serving-Limits c = omega (arith, length-take 1 (drop (c.offset + c.fetch_size) file))

serving-GoesWell : GoesWell file (turn serving)
serving-GoesWell = record {
  works = serving-Works;
  memory = (refl, refl);
  writes = refl;
  gives = λ c lt. (
    take 1 (drop (c.offset + c.fetch_size) file),
    refl,
    omega (
      arith,
      length-take 1 (drop (c.offset + c.fetch_size) file),
      length-drop (c.offset + c.fetch_size) file,
      lt,
    ),
  );
}

same-digest : c_text announced.md5sum ≡ hex_text (digest file)
unfolding c_text hex_text hex2char
same-digest = refl

perform_sync-IsComplete_example :
    (u : Updated) × (perform_sync digest true 4 true 300 turns announced ≡ some u)
    × IsComplete file u
perform_sync-IsComplete_example =
    perform_sync-IsComplete file digest 4 300 turns announced channel
      (serving-GoesWell, (serving-GoesWell, tt)) (serving-Limits, (serving-Limits, tt))
      (omega arith) (omega arith) refl (omega arith) same-digest refl refl refl refl (omega arith)

abbrev updated : Updated
updated = record {
  ota = record announced {
    state = fetched;
    type = none_type;
    size_last_fetched = 1;
    size_fetched = 2;
    sha256 = some file;
    ch_fetch = some (record channel { fetch_size = 2 });
  };
  stored = file;
  verdict = success;
}

performed : perform_sync digest true 4 true 300 turns announced ≡ some updated
unfolding perform_sync sync_with ioctl command reset_size fota_loop turn_on turn_received
    turn_stored is_fetch_finish check_image image_verdict check_md5 hex_text hex2char c_text
    fetch_yield enter_fetching fetch_md5 fetch_sha256 fetch_open fetch_from fetch_renew fetch_count
performed = refl

perform_sync-IsSound_example :
    (c_text announced.md5sum ≡ hex_text (digest file)) × (2 ≤ length file)
perform_sync-IsSound_example =
    perform_sync-IsSound digest true 4 true 300 turns announced updated
      (serving-Limits, (serving-Limits, tt)) (omega arith) performed refl

perform_sync-stores_example : updated.stored ≡ file
perform_sync-stores_example =
    perform_sync-stores file digest true 4 true 300 turns announced updated
      (serving-Works, (serving-Works, tt)) (serving-Limits, (serving-Limits, tt)) refl refl
      (omega arith) performed refl

failing-Fails : Fails failing
failing-Fails c = (4, refl)

perform_sync-GivesUp_example :
    (u : Updated) × (perform_sync digest true 4 true 100
        (turn failing ∷ turn failing ∷ [])
        announced
      ≡ some u)
    × GivesUp [] u
    × ((w : Outside) (p : Parser) (msg : List ℕ) → push_fota w p msg u.ota ≡ (u.ota, fail_return))
perform_sync-GivesUp_example =
    perform_sync-GivesUp digest 4 100 1 (turn failing ∷ turn failing ∷ []) announced refl refl
      (failing-Fails, (failing-Fails, tt)) (omega arith) (omega arith) (omega arith)

-- A parser that finds the same text under every key but the first, after an update of two bytes.
abbrev parser : Parser
parser = record {
  value_of = λ text key. some (if same_bytes key key_message then text_success else b'9' ∷ []);
  atoi = λ text. 9;
  alloc_version = true;
  alloc_url = true;
}

accepted : (push_fota serving parser [] updated.ota).1 ≡ pos 0
unfolding push_fota push_data start_fota get_params get_url get_md5 get_size
accepted = refl

push_fota-Stale_example :
    (c : Channel) × ((push_fota serving parser [] updated.ota).0.ch_fetch ≡ some c)
    × (c.offset ≡ 2)
    × ((push_fota serving parser [] updated.ota).0.state ≡ pushed)
    × ((reset_size digest (push_fota serving parser [] updated.ota).0).ch_fetch ≡ some c)
    × ((reset_size digest (push_fota serving parser [] updated.ota).0).size_fetched ≡ 0)
push_fota-Stale_example = push_fota-Stale digest serving parser [] updated.ota accepted
