-- ===== src/DevModel/Cache/Runs.antt =====
-- Runs of the message cache, and its theorems at concrete inputs.
use nu_maker_mbed_aliyun_io.Base.{
  ◌+◌, ◌≡◌, refl, arith, true, none, some, ℕ, ◌++◌, take, List, [], ◌∷◌, pos,
}
use nu_maker_mbed_aliyun_io.DevModel.Cache.{
  Node, new_node, Ctx, init, tick, tick_nodes, Send, send_timeouts, send_timeout, deinit, lock,
  unlock, destroy,
}
use nu_maker_mbed_aliyun_io.DevModel.Cache.Sizes.{
  Call, inserts, removes, ticks, run, IsSized, run-init-IsSized, run-starved,
}
use nu_maker_mbed_aliyun_io.DevModel.Cache.Tick.{made_messages, Splits, tick-Splits}
use nu_maker_mbed_aliyun_io.DevModel.Ipc.{Ipc, msg_insert}

abbrev old_node : Node
old_node = new_node 100 (pos 7) (pos 0) 3 none

abbrev one_left : Ctx
one_left = record { mutex = true; dmc_list_size = 1; dmc_list = old_node ∷ [] }

-- The counter at its limit, one node that is long overdue.
abbrev crowded : Ctx
crowded = record { mutex = true; dmc_list_size = 50; dmc_list = old_node ∷ [] }

-- Each message is made, and the queue has one place left.
abbrev all_made : ℕ → Send
all_made i = record { text = true; message = some (7 + i); node = true }

abbrev one_place : Ipc
one_place = record { mutex = true; msg_list = record { max_size = 1; size = 0; message_list = [] } }

-- Once timed out, the node is gone and still counted.
tick_keeps_size :
    (tick all_made 10100 one_left one_place).0
    ≡ record { mutex = true; dmc_list_size = 1; dmc_list = [] }
unfolding tick tick_nodes
tick_keeps_size = refl

-- The second of two time-outs finds the queue full.
tick_loses :
    (tick all_made 10100
      (record one_left { dmc_list = old_node ∷ old_node ∷ [] })
      one_place).2.msg_list.message_list
    ≡ 7 ∷ []
unfolding tick tick_nodes send_timeouts send_timeout msg_insert
tick_loses = refl

-- One lock, and an unlock for the node and one more.
deinit_unlocks : (deinit one_left).1 ≡ lock ∷ unlock ∷ unlock ∷ destroy ∷ []
unfolding deinit
deinit_unlocks = refl

abbrev history : List Call
history =
    inserts true 0 (pos 1) (pos 0) 2 none ∷ ticks all_made 20000 one_place ∷ removes (pos 1) ∷ []

abbrev empty_ctx : Ctx
empty_ctx = record { mutex = true; dmc_list_size = 0; dmc_list = [] }

run-init-IsSized_example : IsSized (run empty_ctx history)
unfolding init
run-init-IsSized_example = run-init-IsSized true empty_ctx history refl

run-starved_example : (run (tick all_made 10100 crowded one_place).0 history).dmc_list ≡ []
run-starved_example =
    run-starved all_made 10100 crowded one_place history (omega arith) (omega arith)

tick-Splits_example :
    Splits 10100
      (old_node ∷ [])
      (tick all_made 10100 one_left one_place).0.dmc_list
      (tick all_made 10100 one_left one_place).1
    × ((tick all_made 10100 one_left one_place).2.msg_list.message_list
        ≡ [] ++ take 1 (made_messages all_made (tick all_made 10100 one_left one_place).1))
tick-Splits_example = tick-Splits all_made 10100 one_left one_place
