-- ===== src/Pool/Utilization/Search.antt =====
-- The search of `get_tw_ur_from_shortest_period_longer_than` around the ring of entries.
use mathlib.Core.Path.{subst}
use abacus_protocol.Base.{
  ℕ, zero, suc, ◌+◌, ◌-◌, ◌/◌, ◌≤◌, ◌<◌, ◌≡◌, refl, ◌⊎◌, inl, inr, Option, none, some, arith,
  Ensures, ok, Option-cases, Bool-cases, leb, true, saturating_sub, wrapping_sub, u64_mod,
  Ensures-intro, Result-cases,
}
use abacus_protocol.Library.TimeWeighted.{TwEntry, next, tw_index_size}
use abacus_protocol.Pool.Storage.{LendingPoolStorage}
use abacus_protocol.Pool.Utilization.{
  found, out_of_fuel, seek, mean_since, get_tw_ur_from_shortest_period_longer_than,
}

-- The index after another is within the ring.
pub next-lt : (i : ℕ) → next i < tw_index_size
unfolding next
next-lt i = ground arith

next_cases : (i : ℕ) → i < 60 → (next i ≡ i + 1) ⊎ ((next i ≡ 0) × (i ≡ 59))
unfolding next
next_cases i h = ground arith

-- A number of steps that leads from an index to another.
way_round :
    (i newest : ℕ)
    → i < 60
    → newest < 60
    → (d : ℕ) × (d < 61) × ((i + d ≡ newest) ⊎ (i + d ≡ newest + 60))
way_round i newest hi hn = elim (Bool-cases (leb i newest)) [
  | inl e ↦ (newest - i, grind arith, inl (grind arith))
  | inr e ↦ (newest + 60 - i, grind arith, inr (grind arith))
]

module _ (entries : ℕ → Option TwEntry) (last : TwEntry) (period : ℕ) where
  -- The entry at an index is in the ring, and the one after it is too recent.
  abbrev pub Shortest : ℕ → Type 0
  Shortest index =
      (later : TwEntry) × (entries (next index) ≡ some later)
      × (saturating_sub last.timestamp later.timestamp < period)

  -- The entry that is far enough is not the last one.
  seek_more :
      (newest d index : ℕ) (after : TwEntry)
      → newest < 60
      → entries newest ≡ some last
      → 0 < period
      → (next index + d ≡ newest) ⊎ (next index + d ≡ newest + 60)
      → entries (next index) ≡ some after
      → leb period (saturating_sub last.timestamp after.timestamp) ≡ true
      → 0 < d
  seek_more newest zero index after hn hl hp way here far =
      let at_newest : next index ≡ newest = grind (arith, next-lt index) in grind arith
  seek_more newest (suc d) index after hn hl hp way here far = omega arith

  -- From an index whose next one is `d` steps before the last entry, `d + 1` rounds are enough.
  seek_within :
      (newest : ℕ)
      → newest < 60
      → entries newest ≡ some last
      → 0 < period
      → (d fuel index : ℕ) (after : TwEntry) → d < fuel
      → (next index + d ≡ newest) ⊎ (next index + d ≡ newest + 60)
      → entries (next index) ≡ some after
      → Ensures
          (λ r. (i : ℕ) × (r ≡ found i) × Shortest i)
          (seek entries last period fuel index after)
  unfolding seek
  seek_within newest hn hl hp d zero index after h way here = absurd (omega arith)
  seek_within newest hn hl hp d (suc fuel) index after h way here =
      elim (Bool-cases (leb period (saturating_sub last.timestamp after.timestamp))) [
        | inr near ↦ rw near (index, refl, (after, here, ground arith))
        | inl far ↦
            let bound = next-lt index in
            let more : 0 < d = seek_more newest d index after hn hl hp way here far in
            rw far (elim (Option-cases (entries (next (next index)))) [
              | inl e ↦ rw e tt
              | inr (after', e) ↦ rw e (
                  seek_within newest hn hl hp (d - 1) fuel (next index) after' (omega arith)
                    (grind (arith, next_cases (next index))) e)
            ])
      ]

  -- The entries that the mean rate stands on: the one since which it is taken is distant enough, and
  -- the next one is not.
  abbrev pub MeanOver : ℕ → Type 0
  MeanOver rate =
      (index : ℕ) × (entry : TwEntry) × (entries index ≡ some entry)
      × (period ≤ saturating_sub last.timestamp entry.timestamp)
      × (rate
          ≡ wrapping_sub u64_mod last.accumulator entry.accumulator
            / saturating_sub last.timestamp entry.timestamp)
      × Shortest index

  mean_at :
      (index : ℕ) (entry : TwEntry)
      → entries index ≡ some entry
      → Ensures
          (λ rate.
            (period ≤ saturating_sub last.timestamp entry.timestamp)
            × (rate
                ≡ wrapping_sub u64_mod last.accumulator entry.accumulator
                  / saturating_sub last.timestamp entry.timestamp))
          (mean_since entries last period index)
  unfolding mean_since
  mean_at index entry e = rw e (ground arith)

  mean_missing :
      (index : ℕ) → entries index ≡ none → Ensures MeanOver (mean_since entries last period index)
  unfolding mean_since
  mean_missing index e = rw e tt

  mean_since_lem :
      (index : ℕ) → Shortest index → Ensures MeanOver (mean_since entries last period index)
  mean_since_lem index shortest = elim (Option-cases (entries index)) [
    | inl e ↦ mean_missing index e
    | inr (entry, e) ↦ Ensures-intro (mean_since entries last period index) (λ rate q.
        let at = subst (Ensures _) q (mean_at index entry e) in
        (index, entry, e, at.0, at.1, shortest))
  ]

-- With a positive period and the last entry in the ring, 61 rounds are enough for the search: a
-- result is a mean rate, taken since an entry that is at least the period older than the last
-- one, while the entry after it is not.
pub get_tw_ur_lem :
    (s : LendingPoolStorage) (period id guessed_index newest : ℕ) (last : TwEntry)
    → s.tw_ur_indexes id ≡ some newest
    → newest < tw_index_size
    → s.tw_ur_entries id newest ≡ some last
    → 0 < period
    → Ensures
        (λ r. (rate : ℕ) × (r ≡ some rate) × MeanOver (s.tw_ur_entries id) last period rate)
        (get_tw_ur_from_shortest_period_longer_than s 61 period id guessed_index)
unfolding get_tw_ur_from_shortest_period_longer_than
get_tw_ur_lem s period id guessed newest last hi hn hl hp =
    elim (Option-cases (s.tw_ur_entries id (next guessed))) [
      | inl e ↦ rw (hi, hl, e) tt
      | inr (after, e) ↦
          let (d, enough, way) = way_round (next guessed) newest (next-lt guessed) hn in
          let entries = s.tw_ur_entries id in
          let result = seek entries last period 61 guessed after in
          let search =
            seek_within entries last period newest hn hl hp d 61 guessed after enough way e in
          elim (Result-cases result) [
            | inl (r, q) ↦
                let (index, at, shortest) = subst (Ensures _) q search in
                let mean = mean_since_lem entries last period index shortest in
                rw (hi, hl, e, q, at)
                  (elim (Result-cases (mean_since entries last period index)) [
                    | inl (rate, h) ↦ rw h (rate, refl, subst (Ensures _) h mean)
                    | inr (inl (f, h)) ↦ rw h tt
                    | inr (inr h) ↦ rw h tt
                  ])
            | inr (inl (f, q)) ↦ rw (hi, hl, e, q) tt
            | inr (inr q) ↦ rw (hi, hl, e, q) tt
          ]
    ]

module _ (entries : ℕ → Option TwEntry) (last : TwEntry) where
  -- With period 0 on a full ring the search outlasts any fuel.
  pub seek-period_zero :
      ((i : ℕ) → i < 60 → (e : TwEntry) × (entries i ≡ some e))
      → (fuel index : ℕ) (after : TwEntry) → seek entries last 0 fuel index after ≡ ok out_of_fuel
  unfolding seek
  seek-period_zero full zero index after = refl
  seek-period_zero full (suc fuel) index after =
      let (e, h) = full (next (next index)) (next-lt (next index)) in
      rw h (grind (arith, seek-period_zero full fuel (next index) e))
