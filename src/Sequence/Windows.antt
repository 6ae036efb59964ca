-- ===== src/Sequence/Windows.antt =====
-- The sliding windows of agent/sequential/window_manager.py.
use zerra.Prelude.{
  ℕ, suc, ◌+◌, ◌-◌, ◌≤◌, ◌<◌, ◌≡◌, refl, ap, sym, ◌∙◌, ◌⊎◌, leb, ltb→lt, take, take-drop,
  take_last-append, append_assoc, length-append, length-drop, ◌≢◌, String, List, [], ◌∷◌, ◌++◌,
  arith, length, All, All-append, All-drop, take_last, drop, length-take_last-le, ltb, zero,
  Bool-cases, inl, inr,
}
use zerra.Prelude.Dict.{get_or, lookup-insert_self, lookup-insert_ne}
use zerra.Sequence.Events.{SequenceCallEvent, WindowManager, drop_expired, window_after, add}

-- No event is earlier than one before it.
abbrev IsChronological : List SequenceCallEvent → Type 0
IsChronological [] = Unit
IsChronological (e ∷ events) =
    All (λ (f : SequenceCallEvent). e.timestamp ≤ f.timestamp) events × IsChronological events

-- The events of the window that `m` keeps of an identity.
abbrev pub window_of : WindowManager → String → List SequenceCallEvent
window_of m who = get_or who [] m.windows

All-map :
    {P Q : SequenceCallEvent → Type 0} (es : List SequenceCallEvent)
    → ((e : SequenceCallEvent) → P e → Q e)
    → All P es
    → All Q es
All-map [] f h = tt
All-map (e ∷ es) f h = (f e h.0, All-map es f h.1)

IsChronological-drop :
    (n : ℕ) (es : List SequenceCallEvent) → IsChronological es → IsChronological (drop n es)
IsChronological-drop zero es h = h
IsChronological-drop (suc n) [] h = h
IsChronological-drop (suc n) (e ∷ es) h = IsChronological-drop n es h.1

IsChronological-append :
    (es : List SequenceCallEvent) (f : SequenceCallEvent)
    → IsChronological es
    → All (λ (e : SequenceCallEvent). e.timestamp ≤ f.timestamp) es
    → IsChronological (es ++ f ∷ [])
IsChronological-append [] f h late = (tt, tt)
IsChronological-append (e ∷ es) f h late =
    (All-append _ es (f ∷ []) h.0 (late.0, tt), IsChronological-append es f h.1 late.1)

module _ (now ttl : ℕ) where
  drop_expired-IsChronological :
      (es : List SequenceCallEvent) → IsChronological es → IsChronological (drop_expired now ttl es)
  unfolding drop_expired
  drop_expired-IsChronological [] h = tt
  drop_expired-IsChronological (e ∷ es) h = ground (arith, drop_expired-IsChronological es h.1)

  All-drop_expired :
      (P : SequenceCallEvent → Type 0) (es : List SequenceCallEvent)
      → All P es
      → All P (drop_expired now ttl es)
  unfolding drop_expired
  All-drop_expired P [] h = tt
  All-drop_expired P (e ∷ es) h = elim (Bool-cases (ltb (e.timestamp + ttl) now)) [
    | inl old ↦ rw old (All-drop_expired P es h.1)
    | inr fresh ↦ rw fresh h
  ]

  -- In a window that is in order, what stays is not expired.
  drop_expired-fresh :
      (es : List SequenceCallEvent)
      → IsChronological es
      → All (λ (e : SequenceCallEvent). now ≤ e.timestamp + ttl) (drop_expired now ttl es)
  unfolding drop_expired
  drop_expired-fresh [] h = tt
  drop_expired-fresh (e ∷ es) h = elim (Bool-cases (ltb (e.timestamp + ttl) now)) [
    | inl old ↦ rw old (drop_expired-fresh es h.1)
    | inr fresh ↦ rw fresh (ground arith, All-map es (λ f later. ground arith) h.0)
  ]

-- The window is in order, and it is no longer than the manager's bound.
pub record IsValid (m : WindowManager) (who : String) : Type 0 where
  pub in_order : IsChronological (window_of m who)
  pub bounded : length (window_of m who) ≤ m.max_size

-- The expired events are a first part of the window.
drop_expired-split :
    (now ttl : ℕ) (es : List SequenceCallEvent)
    → (expired : List SequenceCallEvent) × (es ≡ expired ++ drop_expired now ttl es)
      × All (λ (e : SequenceCallEvent). e.timestamp + ttl < now) expired
unfolding drop_expired
drop_expired-split now ttl [] = ([], refl, tt)
drop_expired-split now ttl (e ∷ es) = elim (Bool-cases (ltb (e.timestamp + ttl) now)) [
  | inl old ↦
      let (expired, split, late) = drop_expired-split now ttl es in
      (
        e ∷ expired,
        rw old (ap (λ (rest : List SequenceCallEvent). e ∷ rest) split),
        (ltb→lt _ _ old, late),
      )
  | inr fresh ↦ ([], rw fresh refl, tt)
]

length-take_last :
    (xs : List SequenceCallEvent) (n : ℕ) → n ≤ length xs → length (take_last n xs) ≡ n
length-take_last xs n h = omega (arith, length-drop (length xs - n) xs)

-- What `add` leaves of the old window, and its last event.
abbrev pub EndsWith : WindowManager → SequenceCallEvent → List SequenceCallEvent → Type 0
EndsWith m event events =
    (gone : List SequenceCallEvent) × (kept : List SequenceCallEvent) × (window_of m
        event.identity_id
      ≡ gone ++ kept)
    × (events ≡ kept ++ event ∷ [])
    × (All (λ (e : SequenceCallEvent). e.timestamp + m.ttl < event.timestamp) gone
        ⊎ (length events ≡ m.max_size))

module _ (m : WindowManager) (event : SequenceCallEvent) where
  add-EndsWith : 1 ≤ m.max_size → EndsWith m event (add m event).1.events
  unfolding add window_after
  add-EndsWith positive =
      let n = m.max_size - 1 in
      let old = window_of m event.identity_id in
      let (expired, split, late) = drop_expired-split event.timestamp m.ttl old in
      let rest = drop_expired event.timestamp m.ttl old in
      let k = length rest - n in
      let size : m.max_size ≡ suc n = omega arith in
      (
        expired ++ take k rest,
        drop k rest,
        split
            ∙ ap (λ (r : List SequenceCallEvent). expired ++ r) (take-drop k rest)
            ∙ sym (append_assoc expired (take k rest) (drop k rest)),
        ap (λ (size : ℕ). take_last size (rest ++ event ∷ [])) size ∙ take_last-append n rest event,
        elim (Bool-cases (leb (length rest) n)) [
          | inl short ↦
              let nothing : k ≡ 0 = ground arith in
              inl (All-append _ expired (take k rest) late (rw nothing tt))
          | inr long ↦ inr (
              ground (
                arith,
                length-take_last (rest ++ event ∷ []) m.max_size,
                length-append rest (event ∷ []),
              ))
        ],
      )

  -- An event that is not earlier than those of its window, under a bound that is not 0, keeps the
  -- windows in order and bounded. Its window, which is also what is returned, is then a last part
  -- of what it was, followed by the event; all of it lies within the time to live; and what left it
  -- had expired, or the window is full.
  pub add-IsValid :
      1 ≤ m.max_size
      → IsValid m event.identity_id
      → All
          (λ (e : SequenceCallEvent). e.timestamp ≤ event.timestamp)
          (window_of m event.identity_id)
      → let (m', window) = add m event in
        IsValid m' event.identity_id
        × All (λ (e : SequenceCallEvent). event.timestamp ≤ e.timestamp + m.ttl) window.events
        × (window.events ≡ window_of m' event.identity_id)
        × EndsWith m event window.events
  unfolding add window_after
  add-IsValid positive v late =
      let old = window_of m event.identity_id in
      let rest = drop_expired event.timestamp m.ttl old in
      let full = rest ++ event ∷ [] in
      let ordered = IsChronological-drop (length full - m.max_size) full (
        IsChronological-append rest event
          (drop_expired-IsChronological event.timestamp m.ttl old v.in_order)
          (All-drop_expired event.timestamp m.ttl _ old late)) in
      let fresh = All-drop _ (length full - m.max_size) full (
        All-append (λ (e : SequenceCallEvent). event.timestamp ≤ e.timestamp + m.ttl) rest
          (event ∷ []) (drop_expired-fresh event.timestamp m.ttl old v.in_order)
          (omega arith, tt)) in
      let found = lookup-insert_self event.identity_id (take_last m.max_size full) m.windows in
      (
        record {
          in_order = rw found ordered;
          bounded = rw found (length-take_last-le m.max_size full);
        },
        fresh,
        rw found,
        add-EndsWith positive,
      )

  -- Whatever the order of the events, a window is never longer than the bound.
  pub length-add-le : length (add m event).1.events ≤ m.max_size
  unfolding add window_after
  length-add-le = length-take_last-le m.max_size _

  -- The other identities' windows stay as they are.
  pub add_others :
      (who : String) → event.identity_id ≢ who → window_of (add m event).0 who ≡ window_of m who
  unfolding add
  add_others who ne =
      rw (lookup-insert_ne event.identity_id who (window_after m event) m.windows ne)
