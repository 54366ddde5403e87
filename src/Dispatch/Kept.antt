-- ===== src/Dispatch/Kept.antt =====
-- How long `UnicoreBinaryDispatcher` of src/unicore_transport.cpp lists an unknown id.
use unicore_ros.Base.{
  ℕ, zero, suc, ◌+◌, ◌≤◌, ◌≡◌, refl, inl, inr, true, false, some, List, [], ◌∷◌, ◌++◌, arith,
  length, get_elem?, Bool-cases, length-append,
}
use unicore_ros.Transport.{Frame}
use unicore_ros.Dispatch.{DispatchCounters, contains, record_unknown, dispatch, dispatch_all}
use unicore_ros.Dispatch.Recent.{
  is_unknown, IsRecent, Pushed, room, full, push_recent-Pushed, dispatch-Dispatched,
  dispatch-IsRecent,
}

-- `id` is listed and at least `n` more ids can be listed before it falls out.
abbrev Stays : ℕ → ℕ → List ℕ → Type 0
Stays n id ids = (i : ℕ) × (get_elem? ids i ≡ some id) × (n + length ids ≤ i + 8)

get_elem?-append :
    (xs ys : List ℕ) (i : ℕ) {x : ℕ} → get_elem? xs i ≡ some x → get_elem? (xs ++ ys) i ≡ some x
get_elem?-append [] ys i e = cc
get_elem?-append (x ∷ xs) ys zero e = e
get_elem?-append (x ∷ xs) ys (suc i) e = get_elem?-append xs ys i e

get_elem?-snoc : (xs : List ℕ) (x : ℕ) → get_elem? (xs ++ (x ∷ [])) (length xs) ≡ some x
get_elem?-snoc [] x = refl
get_elem?-snoc (y ∷ xs) x = get_elem?-snoc xs x

get_elem?-contains : (xs : List ℕ) (i x : ℕ) → get_elem? xs i ≡ some x → contains x xs ≡ true
unfolding contains
get_elem?-contains [] i x e = cc
get_elem?-contains (y ∷ xs) zero x e = ground arith
get_elem?-contains (y ∷ xs) (suc i) x e = ground (arith, get_elem?-contains xs i x)

Pushed-Stays :
    {id : ℕ} {ids new : List ℕ} (n other : ℕ)
    → Pushed id ids new
    → Stays (suc n) other ids
    → Stays n other new
Pushed-Stays {id} {ids} n other (room h) (i, e, k) =
    (i, get_elem?-append ids (id ∷ []) i e, omega (arith, length-append ids (id ∷ [])))
Pushed-Stays {id} n other (full {x} {rest} h) (zero, e, k) = absurd (omega arith)
Pushed-Stays {id} n other (full {x} {rest} h) (suc i, e, k) =
    (i, get_elem?-append rest (id ∷ []) i e, omega (arith, length-append rest (id ∷ [])))

Pushed-new : {id : ℕ} {ids new : List ℕ} → Pushed id ids new → Stays 7 id new
Pushed-new {id} {ids} (room h) =
    (length ids, get_elem?-snoc ids id, omega (arith, length-append ids (id ∷ [])))
Pushed-new {id} (full {x} {rest} h) =
    (length rest, get_elem?-snoc rest id, omega (arith, length-append rest (id ∷ [])))

Stays-pred : (n id : ℕ) (ids : List ℕ) → Stays (suc n) id ids → Stays n id ids
Stays-pred n id ids (i, e, k) = (i, e, omega arith)

dispatch-Stays :
    (n id : ℕ) (f : Frame) (c : DispatchCounters)
    → IsRecent c.recent_unknown_message_ids
    → Stays (suc n) id c.recent_unknown_message_ids
    → Stays n id (dispatch f c).0.recent_unknown_message_ids
unfolding record_unknown
dispatch-Stays n id f c r s = elim (dispatch-Dispatched f c).change [
  | inr (u, m, e) ↦ rw e (Stays-pred n id _ s)
  | inl (u, m, e) ↦ elim (Bool-cases (contains f.message_id c.recent_unknown_message_ids)) [
    | inl here ↦ rw (e, here) (Stays-pred n id _ s)
    | inr gone ↦ rw (e, gone) (Pushed-Stays n id (push_recent-Pushed f.message_id _ r.limited) s)
  ]
]

dispatch_all-Stays :
    (n id : ℕ) (fs : List Frame) (c : DispatchCounters)
    → IsRecent c.recent_unknown_message_ids
    → Stays n id c.recent_unknown_message_ids
    → length fs ≤ n
    → contains id (dispatch_all fs c).recent_unknown_message_ids ≡ true
unfolding dispatch_all
dispatch_all-Stays n id [] c r (i, e, k) h = get_elem?-contains _ i id e
dispatch_all-Stays zero id (f ∷ fs) c r s h = absurd (omega arith)
dispatch_all-Stays (suc n) id (f ∷ fs) c r s h =
    dispatch_all-Stays n id fs (dispatch f c).0 (dispatch-IsRecent f c r)
      (dispatch-Stays n id f c r s) (omega arith)

-- When the listed ids are at most 8, distinct and unknown, a frame with an unknown id that is not
-- listed puts its id on the list, and the id is still there after up to 7 further frames, whatever
-- they are.
pub dispatch_all-kept :
    (f : Frame) (later : List Frame) (c : DispatchCounters)
    → IsRecent c.recent_unknown_message_ids
    → is_unknown f.message_id ≡ true
    → contains f.message_id c.recent_unknown_message_ids ≡ false
    → length later ≤ 7
    → contains f.message_id (dispatch_all (f ∷ later) c).recent_unknown_message_ids ≡ true
unfolding dispatch_all record_unknown
dispatch_all-kept f later c r u absent h =
    dispatch_all-Stays 7 f.message_id later (dispatch f c).0 (dispatch-IsRecent f c r) newest h
  where
    newest : Stays 7 f.message_id (dispatch f c).0.recent_unknown_message_ids
    newest = elim (dispatch-Dispatched f c).change [
      | inr (v, m, e) ↦ absurd (cc)
      | inl (v, m, e) ↦ rw (e, absent) (Pushed-new (push_recent-Pushed f.message_id _ r.limited))
    ]
