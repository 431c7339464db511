-- ===== src/Http/Accept/Examples.antt =====
-- Runs of the accept loop on concrete inputs.
use acppsrv.Prelude.{ℕ, ◌+◌, ◌%◌, ◌≡◌, ◌≤◌, refl, true, false, none, some, [], arith, length, ◌≢◌}
use acppsrv.Config.{Configuration, ThreadPools}
use acppsrv.Prelude.Int.{pos}
use acppsrv.Http.Accept.{
  Accept, start, conn_limit, conn_limit_init, failed, accept, connected, endpoint_throws, size_mod,
  active_connection_end, is_open, Step, check, store, new, Reach, here, later,
}
use acppsrv.Http.Accept.Invariant.{lost, connection_limit}
use acppsrv.Http.Accept.Failure.{endpoint_throws-failed}
use acppsrv.Http.Accept.Wakeup.{end_wakes, Step-exists}

-- One connection, with a limit of one.
abbrev one : Accept
one = accept connected (conn_limit (start (some 1) 1))

abbrev asleep : Accept
asleep = conn_limit_init (conn_limit one)

one_reached : Reach (start (some 1) 1) one
unfolding start conn_limit accept
one_reached = later (later here (check refl refl)) (new refl connected)

asleep_reached : Reach (start (some 1) 1) asleep
unfolding start conn_limit accept conn_limit_init
asleep_reached = later (later one_reached (check refl refl)) (store refl)

connection_limit_example :
    (asleep.active_connections ≡ length asleep.conns + lost asleep.pc) × (length asleep.conns ≤ 1)
connection_limit_example =
    connection_limit 1 1 (omega arith) (omega arith) (omega arith) asleep_reached

end_wakes_example :
    (asleep.conns ≢ [])
    × (asleep.locked ≡ false)
    × ((sid : ℕ)
        → is_open sid asleep.conns ≡ true
        → (active_connection_end sid asleep).posted ≡ true)
unfolding start conn_limit accept conn_limit_init
end_wakes_example = end_wakes (some 1) 1 (omega arith) (omega arith) asleep_reached refl refl

Step-exists_example : (t : Accept) × Step asleep t
unfolding start conn_limit accept conn_limit_init
Step-exists_example = Step-exists (some 1) 1 (omega arith) (omega arith) asleep_reached (λ e. cc)

abbrev pools : ThreadPools
pools = record {
  main = none;
  control = none;
  database = none;
  main_pools = pos 3;
  accept_pool = true;
}

abbrev config : Configuration ℕ
config = record { log = none; thread_pools = some pools; http_server = none; databases = none }

-- A connection accepted without a limit, by the first of two pools.
abbrev accepted : Accept
accepted = accept connected (conn_limit (start none 2))

accepted_reached : Reach (start none 2) accepted
unfolding start conn_limit
accepted_reached = later (later here (check refl refl)) (new refl connected)

-- The first client is gone again when its address is asked for the second time.
abbrev gone : Accept
gone = accept endpoint_throws one

endpoint_throws-failed_example :
    (gone.pc ≡ failed)
    × (gone.session ≡ (one.session + 1) % size_mod)
    × ((sid : ℕ) → is_open sid gone.conns ≡ true → is_open sid one.conns ≡ true)
endpoint_throws-failed_example = endpoint_throws-failed one here
