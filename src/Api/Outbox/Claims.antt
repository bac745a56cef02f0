-- ===== src/Api/Outbox/Claims.antt =====
-- What a claim of outbox events takes, and how it locks it.
use bevoac_dev.Prelude.{
  ℕ, ◌+◌, ◌≤◌, ◌<◌, ◌≡◌, refl, inl, inr, Bool, true, false, Option, none, some, List, [], ◌∷◌, take,
  length, length-take_le, All, All-take, ◌==◌, leb, is_some, Bool-cases, Option-cases,
  if◌then◌else◌, arith,
}
use bevoac_dev.Prelude.Table.{Table, get, get-put}
use bevoac_dev.Api.Outbox.{
  EventRow, EventStatus, event_pending, event_failed, processing, published, claimable, candidates,
  insert_by_age, by_age, update_event, lock_all, claim_pending,
}

-- A lock that is over: a row in process was locked more than ten minutes ago.
abbrev IsFree : ℕ → EventStatus → Option ℕ → Type 0
IsFree now event_pending locked_at = Unit
IsFree now event_failed locked_at = Unit
IsFree now published locked_at = ⊥
IsFree now processing none = ⊥
IsFree now processing (some t) = t + 600 < now

abbrev IsReached : ℕ → Option ℕ → Type 0
IsReached now none = Unit
IsReached now (some t) = t ≤ now

-- An event that is to be sent: not published nor in the hands of a publisher, with attempts left, and
-- not before its time.
abbrev pub IsDue : (max_attempts now : ℕ) → EventRow → Type 0
IsDue max_attempts now r =
    IsFree now r.status r.locked_at
    × ((r.attempts < max_attempts) × IsReached now r.next_attempt_at)

-- a publisher took the row at `now`
abbrev pub is_locked : ℕ → Option EventRow → Bool
is_locked now none = false
is_locked now (some r) = elim r.status [
  | processing ↦ elim r.locked_at [ none ↦ false | some t ↦ t == now ]
  | event_pending ↦ false
  | event_failed ↦ false
  | published ↦ false
]

IsFree-claimable :
    (max_attempts now : ℕ) (s : EventStatus) (l : Option ℕ) (r : EventRow)
    → r.status ≡ s
    → r.locked_at ≡ l
    → claimable max_attempts now r ≡ true
    → IsFree now s l
unfolding claimable
IsFree-claimable m now event_pending l r p q h = tt
IsFree-claimable m now event_failed l r p q h = tt
IsFree-claimable m now published l r p q h = ground arith
IsFree-claimable m now processing none r p q h = ground arith
IsFree-claimable m now processing (some t) r p q h = ground arith

IsReached-claimable :
    (max_attempts now : ℕ) (n : Option ℕ) (r : EventRow)
    → r.next_attempt_at ≡ n
    → claimable max_attempts now r ≡ true
    → IsReached now n
unfolding claimable
IsReached-claimable m now none r p h = tt
IsReached-claimable m now (some t) r p h = ground arith

IsDue-claimable :
    (max_attempts now : ℕ) (r : EventRow)
    → claimable max_attempts now r ≡ true
    → IsDue max_attempts now r
unfolding claimable
IsDue-claimable m now r h =
    (IsFree-claimable m now _ _ r refl refl h, (ground arith, IsReached-claimable m now _ r refl h))

insert_by_age-All :
    (P : ℕ × EventRow → Type 0) (e : ℕ × EventRow) (l : List (ℕ × EventRow))
    → P e
    → All P l
    → All P (insert_by_age e l)
unfolding insert_by_age
insert_by_age-All P e [] p q = (p, tt)
insert_by_age-All P e (f ∷ l) p (q, qs) =
    let r = insert_by_age-All P e l p qs in
    elim (Bool-cases (leb e.1.created_at f.1.created_at)) [
      | inl b ↦ rw (b, insert_by_age) (p, (q, qs))
      | inr b ↦ rw (b, insert_by_age) (q, r)
    ]

by_age-All : (P : ℕ × EventRow → Type 0) (l : List (ℕ × EventRow)) → All P l → All P (by_age l)
unfolding by_age
by_age-All P [] q = q
by_age-All P (e ∷ l) (q, qs) = insert_by_age-All P e (by_age l) q (by_age-All P l qs)

-- a claimed event, and a row that the table has
abbrev IsFound : (max_attempts now : ℕ) → Table EventRow → ℕ × EventRow → Type 0
IsFound max_attempts now rows e = IsDue max_attempts now e.1 × (is_some (get rows e.0) ≡ true)

found :
    (id k : ℕ) (r : EventRow) (rows : Table EventRow)
    → is_some (get rows k) ≡ true
    → is_some (get ((id, r) ∷ rows) k) ≡ true
unfolding get
found id k r rows h = ground arith

found_here :
    (id : ℕ) (r : EventRow) (rows : Table EventRow) → is_some (get ((id, r) ∷ rows) id) ≡ true
unfolding get
found_here id r rows = ground arith

candidates-All :
    (max_attempts now : ℕ) (all rows : Table EventRow)
    → ((k : ℕ) → is_some (get rows k) ≡ true → is_some (get all k) ≡ true)
    → All (IsFound max_attempts now all) (candidates max_attempts now rows)
unfolding candidates
candidates-All m now all [] sub = tt
candidates-All m now all ((id, r) ∷ rows) sub =
    let q = candidates-All m now all rows (λ k h. sub k (found id k r rows h)) in
    elim (Bool-cases (claimable m now r)) [
      | inl b ↦ rw (b, candidates) ((IsDue-claimable m now r b, sub id (found_here id r rows)), q)
      | inr b ↦ rw (b, candidates) q
    ]

module _ (now : ℕ) where
  abbrev lock : EventRow → EventRow
  lock r = record r { status = processing; locked_at = some now; updated_at = now }

  get-lock :
      (k j : ℕ) (rows : Table EventRow)
      → get (update_event k lock rows) j ≡ (
          if k == j then elim (get rows j) [ none ↦ none | some r ↦ some (lock r) ] else get rows j)
  unfolding update_event
  get-lock k j rows = elim (Option-cases (get rows k)) [
    | inl e ↦ ground arith
    | inr (r, e) ↦ let g = get-put k j (lock r) rows in ground arith
  ]

  lock-found :
      (k j : ℕ) (rows : Table EventRow)
      → is_some (get rows j) ≡ true
      → is_some (get (update_event k lock rows) j) ≡ true
  lock-found k j rows h = let g = get-lock k j rows in ground arith

  lock-keeps :
      (k j : ℕ) (rows : Table EventRow)
      → is_locked now (get rows j) ≡ true
      → is_locked now (get (update_event k lock rows) j) ≡ true
  lock-keeps k j rows h = let g = get-lock k j rows in ground arith

  lock-locks :
      (k : ℕ) (rows : Table EventRow)
      → is_some (get rows k) ≡ true
      → is_locked now (get (update_event k lock rows) k) ≡ true
  lock-locks k rows h = let g = get-lock k k rows in ground arith

  lock_all-keeps :
      (l : List (ℕ × EventRow)) (rows : Table EventRow) (k : ℕ)
      → is_locked now (get rows k) ≡ true
      → is_locked now (get (lock_all now l rows) k) ≡ true
  unfolding lock_all update_event
  lock_all-keeps [] rows k h = h
  lock_all-keeps ((id, r) ∷ l) rows k h = lock_all-keeps l _ k (lock-keeps id k rows h)

  All-found :
      (id : ℕ) (rows : Table EventRow) (l : List (ℕ × EventRow))
      → All (λ e. is_some (get rows e.0) ≡ true) l
      → All (λ e. is_some (get (update_event id lock rows) e.0) ≡ true) l
  All-found id rows [] h = tt
  All-found id rows (e ∷ l) (h, hs) = (lock-found id e.0 rows h, All-found id rows l hs)

  lock_all-locked :
      (l : List (ℕ × EventRow)) (rows : Table EventRow)
      → All (λ e. is_some (get rows e.0) ≡ true) l
      → All (λ e. is_locked now (get (lock_all now l rows) e.0) ≡ true) l
  unfolding lock_all update_event
  lock_all-locked [] rows h = tt
  lock_all-locked ((id, r) ∷ l) rows (h, hs) =
      (lock_all-keeps l _ id (lock-locks id rows h), lock_all-locked l _ (All-found id rows l hs))

All-split :
    (P Q : ℕ × EventRow → Type 0) (l : List (ℕ × EventRow))
    → All (λ e. P e × Q e) l
    → All P l × All Q l
All-split P Q [] h = (tt, tt)
All-split P Q (e ∷ l) ((p, q), hs) = let (ps, qs) = All-split P Q l hs in ((p, ps), (q, qs))

-- A claim takes at most `limit` events, each of them due: it has attempts left, its time has come, and
-- it is neither published nor in the hands of a publisher that locked it within ten minutes. And it
-- locks them: each one's row is then in process, since now.
pub claim_pending-locks :
    (limit max_attempts now : ℕ) (rows : Table EventRow)
    → let (claimed, after) = claim_pending limit max_attempts now rows in
      All (λ e. IsDue max_attempts now e.1) claimed
      × ((length claimed ≤ limit) × All (λ e. is_locked now (get after e.0) ≡ true) claimed)
unfolding claim_pending
claim_pending-locks limit max_attempts now rows =
    let l = by_age (candidates max_attempts now rows) in
    let found_all =
      All-take (IsFound max_attempts now rows) limit l
        (by_age-All _ _ (candidates-All max_attempts now rows rows (λ k h. h))) in
    let (due, there) = All-split _ _ (take limit l) found_all in
    (due, (length-take_le limit l, lock_all-locked now (take limit l) rows there))
