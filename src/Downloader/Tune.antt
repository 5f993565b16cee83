-- ===== src/Downloader/Tune.antt =====
-- The bandwidth auto-tuner of Downloader.Download. The two comparisons of floating-point numbers are
-- arguments, and a list of numbers stands for TotalProcessed at the ticks of the clock; it never
-- falls. The target begins with a positive int32 and is raised below MaxConcurrency only, so that it
-- does not wrap.
use oget.Prelude.{
  ℕ, suc, ◌+◌, ◌-◌, ◌/◌, ◌≤◌, ◌<◌, Bool, ◌&&◌, List, [], ◌∷◌, arith, ltb, ◌==◌, if◌then◌else◌, max,
  Bool-cases, inl, inr,
}

-- The variables of the tuner, targetConcurrency, and how many workers it has started.
pub record Tuner : Type 0 where
  pub last_processed : ℕ
  pub last_speed : ℕ
  pub cooldown : ℕ
  pub target : ℕ
  pub spawned : ℕ

-- `improved` and `dropped` compare a speed with the one before: diff > 0.10 and diff < -0.20.
module _ (improved dropped : ℕ → ℕ → Bool) (max_concurrency : ℕ) where
  -- one tick, at which `processed` bytes are there
  unfoldable pub tick : ℕ → Tuner → Tuner
  tick processed u =
      let speed = (processed - u.last_processed) / 2 in
      let seen = record u { last_processed = processed; last_speed = speed } in
      if ltb 0 u.cooldown
      then record u { last_processed = processed; cooldown = u.cooldown - 1 }
      else if u.last_speed == 0
      then seen
      else if improved speed u.last_speed && ltb u.target max_concurrency
      then record seen { target = suc u.target; spawned = suc u.spawned; cooldown = 3 }
      else if dropped speed u.last_speed && ltb 1 u.target
      then record seen { target = u.target - 1; cooldown = 2 }
      else seen

  unfoldable pub tune : List ℕ → Tuner → Tuner
  unfolding tick
  tune [] u = u
  tune (p ∷ ps) u = tune ps (tick p u)

  -- What a tick keeps, for a download that began with c workers.
  record InRange (c : ℕ) (u : Tuner) : Type 0 where
    low : 1 ≤ u.target
    high : u.target ≤ max c max_concurrency
    made : u.target ≤ c + u.spawned
    short : u.cooldown ≤ 3

  tick-InRange : (c p : ℕ) (u : Tuner) → InRange c u → InRange c (tick p u)
  unfolding tick
  tick-InRange c p u i =
      let speed = (p - u.last_processed) / 2 in
      elim (Bool-cases (ltb 0 u.cooldown)) [
        | inl waits ↦
            rw waits
              (record { low = i.low; high = i.high; made = i.made; short = omega (arith, i.short) })
        | inr acts ↦ elim (Bool-cases (u.last_speed == 0)) [
          | inl first ↦
              rw (acts, first)
                (record { low = i.low; high = i.high; made = i.made; short = i.short })
          | inr later ↦
              elim (Bool-cases (improved speed u.last_speed && ltb u.target max_concurrency)) [
                | inl up ↦
                    rw (acts, later, up)
                      (record {
                        low = omega arith;
                        high = ground arith;
                        made = omega (arith, i.made);
                        short = omega arith;
                      })
                | inr still ↦ elim (Bool-cases (dropped speed u.last_speed && ltb 1 u.target)) [
                  | inl down ↦
                      rw (acts, later, still, down)
                        (record {
                          low = ground arith;
                          high = omega (arith, i.high);
                          made = omega (arith, i.made);
                          short = omega arith;
                        })
                  | inr same ↦
                      rw (acts, later, still, same)
                        (record { low = i.low; high = i.high; made = i.made; short = i.short })
                ]
              ]
        ]
      ]

  tune-InRange : (c : ℕ) (ps : List ℕ) (u : Tuner) → InRange c u → InRange c (tune ps u)
  unfolding tune
  tune-InRange c [] u i = i
  tune-InRange c (p ∷ ps) u i = tune-InRange c ps (tick p u) (tick-InRange c p u i)

-- Download, before the first tick
abbrev pub untuned : ℕ → Tuner
untuned c = record { last_processed = 0; last_speed = 0; cooldown = 0; target = c; spawned = 0 }

-- However the speed changes, the auto-tuner of a download with c > 0 workers keeps its target between
-- one worker and the larger one of c and MaxConcurrency, and it never aims at more workers than have
-- been started.
pub tune_bounds :
    (improved dropped : ℕ → ℕ → Bool) (max_concurrency c : ℕ) (ps : List ℕ)
    → 0 < c
    → let u = tune improved dropped max_concurrency ps (untuned c) in
      (1 ≤ u.target) × (u.target ≤ max c max_concurrency) × (u.target ≤ c + u.spawned)
tune_bounds improved dropped max_concurrency c ps h =
    let i =
      tune-InRange improved dropped max_concurrency c ps (untuned c) (record {
        low = omega arith;
        high = omega arith;
        made = omega arith;
        short = omega arith;
      }) in
    (i.low, i.high, i.made)
