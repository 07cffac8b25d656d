-- ===== src/Udp/Numbers.antt =====
-- The sliding window of crates/netbaiot-transports/src/udp.rs against the plain list of the sequence
-- numbers that were committed.
use netbaiot.Prelude.{
  Result, ℕ, ◌-◌, ◌≤◌, max, ◌≡◌, refl, sym, ap, ◌∙◌, Bool, true, false, ◌&&◌, ◌||◌, none, List, [],
  ◌∷◌, arith, ltb, leb, ◌==◌, if◌then◌else◌, nat_eq, string_eq, ok, err,
}
use netbaiot.Udp.{
  Replay, ReplayError, ReplayDecision, fresh, accepted_duplicate, conflict, UdpReplayPolicy,
  is_window_64, bit, judge, recorded, or_new,
}
use netbaiot.Udp.Window.{in_window, in_window-recorded, in_window-within, recorded_all}

unfoldable pub was_committed : ℕ → List (ℕ × ℕ) → Bool
was_committed q [] = false
was_committed q ((seq, expires) ∷ commits) = q == seq || was_committed q commits

unfoldable pub largest : ℕ → List (ℕ × ℕ) → ℕ
largest most [] = most
largest most ((seq, expires) ∷ commits) = largest (max most seq) commits

-- What a receiver answers that keeps every number it has committed and looks at the last 64.
abbrev pub judge_by_list : List (ℕ × ℕ) → ℕ → UdpReplayPolicy → Result ReplayError ReplayDecision
judge_by_list commits q policy =
    let most = largest 0 commits in
    if ltb most q
    then ok fresh
    else (if leb 64 (most - q)
        then err conflict
        else (if was_committed q commits
            then ok accepted_duplicate
            else (if is_window_64 policy then ok fresh else err conflict)))

recorded_maximum :
    (entry : Replay) (seq expires : ℕ)
    → (recorded entry seq expires).maximum ≡ max entry.maximum seq
unfolding recorded
recorded_maximum entry seq expires = ground arith

recorded_all-largest :
    (commits : List (ℕ × ℕ)) (entry : Replay)
    → (recorded_all entry commits).maximum ≡ largest entry.maximum commits
unfolding recorded_all largest
recorded_all-largest [] entry = refl
recorded_all-largest ((seq, expires) ∷ commits) entry =
    recorded_all-largest commits (recorded entry seq expires)
    ∙ ap (λ m. largest m commits) (recorded_maximum entry seq expires)

largest-above : (most : ℕ) (commits : List (ℕ × ℕ)) → most ≤ largest most commits
unfolding largest
largest-above most [] = omega arith
largest-above most ((seq, expires) ∷ commits) = omega (arith, largest-above (max most seq) commits)

in_window_bounds :
    (entry : Replay) (q : ℕ)
    → in_window entry q ≡ (in_window entry q && ltb (entry.maximum - q) 64 && leb q entry.maximum)
unfolding in_window
in_window_bounds entry q = ground arith

step_in_window :
    (q seq most far : ℕ) (later before : Bool)
    → most ≤ far
    → seq ≤ most
    → (before ≡ true → q ≤ most)
    → ((later || ((q == seq || before) && ltb (most - q) 64 && leb q most))
        && ltb (far - q) 64
        && leb q far)
      ≡ (((q == seq || later) || before) && ltb (far - q) 64 && leb q far)
step_in_window q seq most far true before up here known = ground arith
step_in_window q seq most far false true up here known = ground (arith, known refl)
step_in_window q seq most far false false up here known = ground arith

-- What any commits leave of the window: the committed numbers and those known before, within 64 of the
-- largest.
in_window-recorded_all :
    (commits : List (ℕ × ℕ)) (entry : Replay) (q : ℕ)
    → in_window (recorded_all entry commits) q ≡ (
        (was_committed q commits || in_window entry q)
        && ltb (largest entry.maximum commits - q) 64
        && leb q (largest entry.maximum commits))
unfolding recorded_all largest was_committed
in_window-recorded_all [] entry q = in_window_bounds entry q
in_window-recorded_all ((seq, expires) ∷ commits) entry q =
    let most = max entry.maximum seq in
    in_window-recorded_all commits (recorded entry seq expires) q
    ∙ ap
        (λ m.
          (was_committed q commits || in_window (recorded entry seq expires) q)
          && ltb (largest m commits - q) 64
          && leb q (largest m commits))
        (recorded_maximum entry seq expires)
    ∙ ap
        (λ w.
          (was_committed q commits || w)
          && ltb (largest most commits - q) 64
          && leb q (largest most commits))
        (in_window-recorded entry seq expires q)
    ∙ step_in_window q seq most (largest most commits) (was_committed q commits) (in_window entry q)
        (largest-above most commits) (omega arith) (λ h. omega (arith, in_window-within entry q h))

-- The answer of an entry whose window holds just what `known` says.
judge-in_window :
    (entry : Replay) (q : ℕ) (policy : UdpReplayPolicy) (known : Bool)
    → in_window entry q ≡ (known && ltb (entry.maximum - q) 64 && leb q entry.maximum)
    → judge entry q policy ≡ (
        if ltb entry.maximum q
        then ok fresh
        else (if leb 64 (entry.maximum - q)
            then err conflict
            else (if known
                then ok accepted_duplicate
                else (if is_window_64 policy then ok fresh else err conflict))))
unfolding judge in_window
judge-in_window entry q policy true h = ground (arith, h)
judge-in_window entry q policy false h = ground (arith, h)

new_in_window : (seq expires q : ℕ) → in_window (or_new none seq expires) q ≡ false
unfolding in_window bit
new_in_window seq expires q = ground arith

-- An entry that was made for its first number and has taken any commits answers, for every number and
-- under either policy, what a receiver would that keeps the list of all committed numbers: new above the
-- largest; a conflict 64 or more behind it; else an accepted duplicate if the number was committed, and
-- if not new under the window policy and a conflict under the other.
pub judge-judge_by_list :
    (seq expires : ℕ) (later : List (ℕ × ℕ)) (q : ℕ) (policy : UdpReplayPolicy)
    → judge (recorded_all (or_new none seq expires) ((seq, expires) ∷ later)) q policy
      ≡ judge_by_list ((seq, expires) ∷ later) q policy
unfolding largest was_committed
judge-judge_by_list seq expires later q policy =
    let commits = (seq, expires) ∷ later in
    let start = or_new none seq expires in
    let entry = recorded_all start commits in
    let known = was_committed q commits in
    let most : entry.maximum ≡ largest 0 commits =
      recorded_all-largest commits start ∙ ap (λ m. largest m later) (omega arith) in
    let window : in_window entry q ≡ (known && ltb (entry.maximum - q) 64 && leb q entry.maximum) =
      in_window-recorded_all commits start q
      ∙ ap (λ m. (known || in_window start q) && ltb (m - q) 64 && leb q m)
          (sym (recorded_all-largest commits start))
      ∙ ap (λ w. (known || w) && ltb (entry.maximum - q) 64 && leb q entry.maximum)
          (new_in_window seq expires q)
      ∙ ap (λ k. k && ltb (entry.maximum - q) 64 && leb q entry.maximum) (ground arith) in
    judge-in_window entry q policy known window
    ∙ ap
        (λ m.
          if ltb m q
          then ok fresh
          else (if leb 64 (m - q)
              then err conflict
              else (if known
                  then ok accepted_duplicate
                  else (if is_window_64 policy then ok fresh else err conflict))))
        most
