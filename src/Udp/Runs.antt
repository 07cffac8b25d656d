-- ===== src/Udp/Runs.antt =====
-- The replay window at concrete inputs.
use netbaiot.Prelude.{
  ◌-◌, max, ◌≡◌, refl, ◌⊎◌, true, false, ◌&&◌, ◌||◌, none, [], ◌∷◌, ltb, leb, ◌==◌, nat_eq,
  string_eq, ok, err,
}
use netbaiot.Udp.{
  ReplayKey, Replay, accepted_duplicate, conflict, window_64, monotonic, ReplayWindow, judge,
  recorded, or_new,
}
use netbaiot.Udp.Window.{in_window, in_window-recorded, recorded_all, committed_never_new}
use netbaiot.Udp.Numbers.{largest, was_committed, judge_by_list, judge-judge_by_list}

-- Ten is the largest number seen, and eight is known too.
abbrev entry : Replay
entry = record { maximum = 10; bits = true ∷ false ∷ true ∷ []; expires = 500 }

abbrev key : ReplayKey
key = record {
  device = record { tenant_id = 1 ∷ []; product_id = 2 ∷ []; device_id = 3 ∷ [] };
  boot = 7 ∷ 7 ∷ [];
  version = 1;
}

abbrev empty_window : ReplayWindow
empty_window = record {
  entries = [];
  expirations = [];
  devices = [];
  tenants = [];
  limits = record {
    udp_clock_skew_ms = 1000;
    replay_ttl_ms = 60_000;
    max_replay_entries = 10;
    max_replay_entries_per_device = 2;
    max_replay_entries_per_tenant = 5;
  };
}

in_window-recorded_example :
    in_window (recorded entry 12 600) 8
    ≡ ((8 == 12 || in_window entry 8) && ltb (max 10 12 - 8) 64 && leb 8 (max 10 12))
in_window-recorded_example = in_window-recorded entry 12 600 8

committed_never_new_example :
    (judge (recorded_all (recorded entry 9 600) ((70, 650) ∷ (11, 660) ∷ [])) 9 monotonic
      ≡ ok accepted_duplicate)
    ⊎ (judge (recorded_all (recorded entry 9 600) ((70, 650) ∷ (11, 660) ∷ [])) 9 monotonic
        ≡ err conflict)
committed_never_new_example = committed_never_new entry 9 600 ((70, 650) ∷ (11, 660) ∷ []) monotonic

-- Nine, then seventy, then ten: the window ends at seven, and twelve was never committed.
judge-judge_by_list_example :
    judge (recorded_all (or_new none 9 600) ((9, 600) ∷ (70, 650) ∷ (10, 660) ∷ [])) 12 window_64
    ≡ judge_by_list ((9, 600) ∷ (70, 650) ∷ (10, 660) ∷ []) 12 window_64
judge-judge_by_list_example = judge-judge_by_list 9 600 ((70, 650) ∷ (10, 660) ∷ []) 12 window_64

answers_10 :
    judge_by_list ((9, 600) ∷ (70, 650) ∷ (10, 660) ∷ []) 10 window_64 ≡ ok accepted_duplicate
unfolding largest was_committed
answers_10 = refl

answers_6 : judge_by_list ((9, 600) ∷ (70, 650) ∷ (10, 660) ∷ []) 6 window_64 ≡ err conflict
unfolding largest
answers_6 = refl
