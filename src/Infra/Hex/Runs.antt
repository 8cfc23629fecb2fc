-- ===== src/Infra/Hex/Runs.antt =====
-- Runs of the hexadecimal conversions.
use nu_maker_mbed_aliyun_io.Base.{◌≡◌, refl, false, [], ◌∷◌}
use nu_maker_mbed_aliyun_io.Infra.Hex.{hexbuf_convert}

hexbuf_lower : hexbuf_convert (0xab ∷ 0x09 ∷ []) false ≡ b'a' ∷ b'b' ∷ b'0' ∷ b'9' ∷ []
unfolding hexbuf_convert
hexbuf_lower = refl
