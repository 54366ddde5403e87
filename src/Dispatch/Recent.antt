-- ===== src/Dispatch/Recent.antt =====
-- The counts and the list of recent unknown ids of `UnicoreBinaryDispatcher`, src/unicore_transport.cpp.
use unicore_ros.Base.{
  ℕ, suc, ◌+◌, ◌%◌, ◌^◌, ◌≤◌, ◌<◌, ◌≡◌, refl, ◌≢◌, ◌⊎◌, inl, inr, Bool, true, false, some, List, [],
  ◌∷◌, ◌++◌, arith, ltb, ◌==◌, if◌then◌else◌, length, All, Bool-cases, length-append,
}
use unicore_ros.Transport.{Frame, increment}
use unicore_ros.Dispatch.{
  DispatchCounters, default_dispatch_counters, known_message_name, is_empty_name, contains,
  push_recent, record_unknown, dispatch, dispatch_all,
}

-- A frame that the table has no name for.
abbrev pub is_unknown : ℕ → Bool
is_unknown id = is_empty_name (known_message_name id)

unfoldable pub unknown_count : List Frame → ℕ
unknown_count [] = 0
unknown_count (f ∷ fs) =
    if is_unknown f.message_id then suc (unknown_count fs) else unknown_count fs

unfoldable pub Distinct : List ℕ → Type 0
Distinct [] = Unit
Distinct (x ∷ xs) = (contains x xs ≡ false) × Distinct xs

pub record IsRecent (ids : List ℕ) : Type 0 where
  pub limited : length ids ≤ 8
  pub distinct : Distinct ids
  pub unknown : All (λ id. is_unknown id ≡ true) ids

contains-snoc :
    (x id : ℕ) (xs : List ℕ) → contains x xs ≡ false → x ≢ id → contains x (xs ++ (id ∷ [])) ≡ false
unfolding contains
contains-snoc x id [] h ne = ground arith
contains-snoc x id (y ∷ ys) h ne = ground (arith, contains-snoc x id ys)

Distinct-snoc :
    (id : ℕ) (xs : List ℕ) → Distinct xs → contains id xs ≡ false → Distinct (xs ++ (id ∷ []))
unfolding Distinct contains
Distinct-snoc id [] d h = (refl, tt)
Distinct-snoc id (x ∷ xs) (n, d) h = elim (Bool-cases (x == id)) [
  | inl e ↦ absurd (ground arith)
  | inr e ↦ (contains-snoc x id xs n (ground arith), Distinct-snoc id xs d (ground arith))
]

All-snoc :
    (id : ℕ) (xs : List ℕ)
    → All (λ i. is_unknown i ≡ true) xs
    → is_unknown id ≡ true
    → All (λ i. is_unknown i ≡ true) (xs ++ (id ∷ []))
All-snoc id [] a h = (h, tt)
All-snoc id (x ∷ xs) (p, a) h = (p, All-snoc id xs a h)

pub data Pushed (id : ℕ) : List ℕ → List ℕ → Type 0 where
  room : {ids : List ℕ} → length ids < 8 → Pushed id ids (ids ++ (id ∷ []))
  full : {x : ℕ} {rest : List ℕ} → length rest ≡ 7 → Pushed id (x ∷ rest) (rest ++ (id ∷ []))

pub push_recent-Pushed :
    (id : ℕ) (ids : List ℕ) → length ids ≤ 8 → Pushed id ids (push_recent id ids)
unfolding push_recent
push_recent-Pushed id [] h = room (omega arith)
push_recent-Pushed id (x ∷ rest) h = elim (Bool-cases (ltb 8 (length (x ∷ rest ++ (id ∷ []))))) [
  | inl e ↦ rw e (full (ground (arith, length-append rest (id ∷ []))))
  | inr e ↦ rw e (room (ground (arith, length-append rest (id ∷ []))))
]

Pushed-IsRecent :
    {id : ℕ} {ids new : List ℕ}
    → Pushed id ids new
    → IsRecent ids
    → contains id ids ≡ false
    → is_unknown id ≡ true
    → IsRecent new
unfolding Distinct contains
Pushed-IsRecent {id} {ids} (room h) r absent u = record {
  limited = omega (arith, length-append ids (id ∷ []));
  distinct = Distinct-snoc id ids r.distinct absent;
  unknown = All-snoc id ids r.unknown u;
}
Pushed-IsRecent {id} (full {x} {rest} h) r absent u = record {
  limited = omega (arith, length-append rest (id ∷ []));
  distinct = Distinct-snoc id rest r.distinct.1 (ground arith);
  unknown = All-snoc id rest r.unknown.1 u;
}

record_unknown-IsRecent :
    (id : ℕ) (ids : List ℕ) → IsRecent ids → is_unknown id ≡ true → IsRecent (record_unknown id ids)
unfolding record_unknown
record_unknown-IsRecent id ids r u = elim (Bool-cases (contains id ids)) [
  | inl e ↦ rw e r
  | inr e ↦ rw e (Pushed-IsRecent (push_recent-Pushed id ids r.limited) r e u)
]

-- What one dispatch makes of the counters.
pub record Dispatched (f : Frame) (c d : DispatchCounters) : Type 0 where
  pub dispatched : d.dispatched_frames ≡ increment c.dispatched_frames
  pub last : d.last_message_id ≡ some f.message_id
  pub change :
      ((is_unknown f.message_id ≡ true)
        × (d.unknown_frames ≡ increment c.unknown_frames)
        × (d.recent_unknown_message_ids ≡ record_unknown f.message_id c.recent_unknown_message_ids))
      ⊎ ((is_unknown f.message_id ≡ false)
          × (d.unknown_frames ≡ c.unknown_frames)
          × (d.recent_unknown_message_ids ≡ c.recent_unknown_message_ids))

pub dispatch-Dispatched : (f : Frame) (c : DispatchCounters) → Dispatched f c (dispatch f c).0
unfolding dispatch
dispatch-Dispatched f c = elim (Bool-cases (is_unknown f.message_id)) [
  | inl e ↦ rw e (record { dispatched = refl; last = refl; change = inl (e, refl, refl) })
  | inr e ↦ rw e (record { dispatched = refl; last = refl; change = inr (e, refl, refl) })
]

pub dispatch-IsRecent :
    (f : Frame) (c : DispatchCounters)
    → IsRecent c.recent_unknown_message_ids
    → IsRecent (dispatch f c).0.recent_unknown_message_ids
dispatch-IsRecent f c r = elim (dispatch-Dispatched f c).change [
  | inl (u, n, e) ↦ rw e (record_unknown-IsRecent f.message_id _ r u)
  | inr (u, n, e) ↦ rw e r
]

dispatch_all_from :
    (fs : List Frame) (c : DispatchCounters)
    → IsRecent c.recent_unknown_message_ids
    → c.dispatched_frames < 2 ^ 64
    → c.unknown_frames < 2 ^ 64
    → IsRecent (dispatch_all fs c).recent_unknown_message_ids
      × ((dispatch_all fs c).dispatched_frames ≡ (c.dispatched_frames + length fs) % 2 ^ 64)
      × ((dispatch_all fs c).unknown_frames ≡ (c.unknown_frames + unknown_count fs) % 2 ^ 64)
unfolding dispatch_all unknown_count
dispatch_all_from [] c r p q = (r, omega arith, omega arith)
dispatch_all_from (f ∷ fs) c r p q =
    let d = dispatch-Dispatched f c in
    let n = d.dispatched in
    elim d.change [
      | inl (u, m, e) ↦
          let (a, b, k) =
            dispatch_all_from fs (dispatch f c).0 (dispatch-IsRecent f c r) (omega arith)
              (omega arith) in
          (a, omega arith, rw u (omega arith))
      | inr (u, m, e) ↦
          let (a, b, k) =
            dispatch_all_from fs (dispatch f c).0 (dispatch-IsRecent f c r) (omega arith)
              (omega arith) in
          (a, omega arith, rw u (omega arith))
    ]

empty-IsRecent : IsRecent []
unfolding Distinct
empty-IsRecent = record { limited = omega arith; distinct = tt; unknown = tt }

-- From fresh counters, after any frames: at most 8 ids are listed, no id twice, and none that the
-- table of message names knows; `dispatched_frames` is the number of frames and `unknown_frames` the
-- number of frames with an id outside the table, both modulo 2 ^ 64.
pub dispatch_all-IsRecent :
    (fs : List Frame)
    → IsRecent (dispatch_all fs default_dispatch_counters).recent_unknown_message_ids
      × ((dispatch_all fs default_dispatch_counters).dispatched_frames ≡ length fs % 2 ^ 64)
      × ((dispatch_all fs default_dispatch_counters).unknown_frames ≡ unknown_count fs % 2 ^ 64)
dispatch_all-IsRecent fs =
    let (a, b, c) =
      dispatch_all_from fs default_dispatch_counters empty-IsRecent (omega arith) (omega arith) in
    (a, omega arith, omega arith)
