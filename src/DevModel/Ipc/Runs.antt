-- ===== src/DevModel/Ipc/Runs.antt =====
-- Runs of the message queue, and its theorems at concrete inputs.
use nu_maker_mbed_aliyun_io.Base.{◌≡◌, refl, true, some, List, [], ◌∷◌}
use nu_maker_mbed_aliyun_io.DevModel.Ipc.{Ipc, init, msg_insert, msg_next}
use nu_maker_mbed_aliyun_io.DevModel.Ipc.Queue.{
  Call, inserts, nexts, step, run, fresh, IsFifo, run-fresh-IsFifo,
}

abbrev history : List Call
history = inserts true (some 5) ∷ inserts true (some 6) ∷ nexts ∷ inserts true (some 7) ∷ nexts ∷ []

abbrev two_places : Ipc
two_places = record {
  mutex = true;
  msg_list = record { max_size = 2; size = 0; message_list = [] };
}

history_delivered : (run (fresh two_places) history).delivered ≡ 5 ∷ 6 ∷ []
unfolding run step msg_insert msg_next
history_delivered = refl

run-fresh-IsFifo_example :
    IsFifo (run (fresh two_places) history)
    × ((run (fresh two_places) history).queue.msg_list.max_size ≡ 2)
unfolding init
run-fresh-IsFifo_example = run-fresh-IsFifo true 2 two_places history refl
