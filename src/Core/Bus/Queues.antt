-- ===== src/Core/Bus/Queues.antt =====
-- The queue of a subscription: its bound, its order, its losses, and its end.
use scrappy_os.Prelude.{
  ℕ, suc, ◌+◌, ◌≤◌, ◌≡◌, refl, true, false, not, Option, none, some, List, [], ◌∷◌, ◌++◌, map,
  length, length-append, arith, Bool-cases, inl, inr, ◌∙◌, ap, sym, if◌then◌else◌,
}
use scrappy_os.Core.Events.{Event}
use scrappy_os.Core.Bus.{
  Subscription, matches, is_full, drop_oldest, offer, close, read_all, offer_all,
}

++-assoc : (xs ys zs : List (Option Event)) → (xs ++ ys) ++ zs ≡ xs ++ (ys ++ zs)
++-assoc [] ys zs = refl
++-assoc (x ∷ xs) ys zs = ap (λ l. x ∷ l) (++-assoc xs ys zs)

++-none : (xs : List (Option Event)) → xs ++ [] ≡ xs
++-none [] = refl
++-none (x ∷ xs) = ap (λ l. x ∷ l) (++-none xs)

-- The events that the subscription takes, while it is open.
abbrev pub taken : Subscription → List Event → List (Option Event)
taken s [] = []
taken s (e ∷ es) = let rest = taken s es in if matches s e then some e ∷ rest else rest

length-drop_oldest :
    (q : List (Option Event)) (e : Option Event)
    → 1 ≤ length q
    → length (drop_oldest q ++ e ∷ []) ≡ length q
length-drop_oldest [] e h = omega arith
length-drop_oldest (x ∷ q) e h = omega (arith, length-append q (e ∷ []))

length-offer :
    (e : Event) (s : Subscription)
    → (1 ≤ s.maxsize → length s.queue ≤ s.maxsize)
    → (1 ≤ (offer e s).1.maxsize → length (offer e s).1.queue ≤ (offer e s).1.maxsize)
unfolding offer
length-offer e s h =
    ground (arith, length-drop_oldest s.queue (some e), length-append s.queue (some e ∷ []))

length-close :
    (s : Subscription)
    → (1 ≤ s.maxsize → length s.queue ≤ s.maxsize)
    → (1 ≤ (close s).maxsize → length (close s).queue ≤ (close s).maxsize)
unfolding close
length-close s h = ground (arith, length-append s.queue (none ∷ []))

-- A queue within its bound; a bound of 0 is none.
abbrev pub IsBounded : Subscription → Type 0
IsBounded s = 1 ≤ s.maxsize → length s.queue ≤ s.maxsize

offer_all-IsBounded :
    (s : Subscription) (es : List Event) → IsBounded s → IsBounded (offer_all es s)
unfolding offer_all
offer_all-IsBounded s [] h = h
offer_all-IsBounded s (e ∷ es) h = offer_all-IsBounded (offer e s).1 es (length-offer e s h)

-- Whatever is offered to a bounded queue, and when it is closed after that, it stays within its
-- bound.
pub close-IsBounded :
    (s : Subscription) (es : List Event) → IsBounded s → IsBounded (close (offer_all es s))
close-IsBounded s es h = length-close (offer_all es s) (offer_all-IsBounded s es h)

read_all-events : (es : List Event) → read_all (map some es) ≡ (es, false)
unfolding read_all
read_all-events [] = refl
read_all-events (e ∷ es) = rw (read_all-events es) refl

read_all-marked : (es : List Event) → read_all (map some es ++ none ∷ []) ≡ (es, true)
unfolding read_all
read_all-marked [] = refl
read_all-marked (e ∷ es) = rw (read_all-marked es) refl

-- Closing an open subscription, whose queue holds events only, loses none of them: a reader is still
-- given all of them. It comes to the end exactly if the queue was not full when it was closed;
-- otherwise it waits forever.
pub read_all-close :
    (s : Subscription) (es : List Event)
    → s.closed ≡ false
    → s.queue ≡ map some es
    → read_all (close s).queue ≡ (es, not (is_full s))
unfolding close
read_all-close s es live held = elim (Bool-cases (is_full s)) [
  | inl full ↦ rw live (rw full (rw held (read_all-events es)))
  | inr room ↦ rw live (rw room (rw held (read_all-marked es)))
]

taken-same :
    (s t : Subscription) (es : List Event)
    → t.wants ≡ s.wants
    → t.task_id ≡ s.task_id
    → taken t es ≡ taken s es
unfolding matches
taken-same s t [] a b = refl
taken-same s t (e ∷ es) a b = rw a (rw b (rw (taken-same s t es a b) refl))

-- What a subscription has come to after some offers: nothing was lost but the oldest items, each of
-- them counted, and the rest is in the queue in the order of the offers.
abbrev pub LostOldest : Subscription → List (Option Event) → Subscription → Type 0
LostOldest s more t =
    (lost : List (Option Event)) × (s.queue ++ more ≡ lost ++ t.queue)
    × (t.dropped ≡ s.dropped + length lost)

LostOldest-full :
    (q : List (Option Event)) (n : ℕ) (e : Option Event) (more : List (Option Event))
    (t : Subscription)
    → 1 ≤ length q
    → (lost : List (Option Event)) → (drop_oldest q ++ e ∷ []) ++ more ≡ lost ++ t.queue
    → t.dropped ≡ suc n + length lost
    → (lost : List (Option Event)) × (q ++ e ∷ more ≡ lost ++ t.queue)
      × (t.dropped ≡ n + length lost)
LostOldest-full [] n e more t some_left lost p d = ground arith
LostOldest-full (x ∷ q) n e more t some_left lost p d =
    (x ∷ lost, ap (λ l. x ∷ l) (sym (++-assoc q (e ∷ []) more) ∙ p), omega arith)

-- The queue after an event that finds room, and after one that does not.
abbrev with_room : Event → Subscription → Subscription
with_room e s = record s { queue = s.queue ++ some e ∷ [] }

abbrev with_loss : Event → Subscription → Subscription
with_loss e s = record s { queue = drop_oldest s.queue ++ some e ∷ []; dropped = suc s.dropped }

module _ (e : Event) (s : Subscription) (live : s.closed ≡ false) where
  offer-other : matches s e ≡ false → (offer e s).1 ≡ s
  unfolding offer
  offer-other other = ground arith

  offer-room : matches s e ≡ true → is_full s ≡ false → (offer e s).1 ≡ with_room e s
  unfolding offer
  offer-room hit room = ground arith

  offer-loss : matches s e ≡ true → is_full s ≡ true → (offer e s).1 ≡ with_loss e s
  unfolding offer
  offer-loss hit full = ground arith

LostOldest-at :
    (s : Subscription) (more : List (Option Event)) (es : List Event) (u t : Subscription)
    → u ≡ t
    → LostOldest s more (offer_all es t)
    → LostOldest s more (offer_all es u)
LostOldest-at s more es u t e h = rw e h

-- Events offered to an open subscription: of what the queue held and of the offered events that
-- match, only the oldest are lost, each is counted as dropped, and the rest is in the queue in
-- order.
pub offer_all-LostOldest :
    (s : Subscription) (es : List Event)
    → s.closed ≡ false
    → LostOldest s (taken s es) (offer_all es s)
unfolding offer_all
offer_all-LostOldest s [] live = ([], ++-none s.queue, omega arith)
offer_all-LostOldest s (e ∷ es) live = elim (Bool-cases (matches s e)) [
  | inr other ↦ rw other (
      LostOldest-at s (taken s es) es (offer e s).1 s (offer-other e s live other)
        (offer_all-LostOldest s es live))
  | inl hit ↦ elim (Bool-cases (is_full s)) [
    | inr room ↦
        let t = with_room e s in
        let (lost, p, d) = offer_all-LostOldest t es live in
        rw hit (
          LostOldest-at s (some e ∷ taken s es) es (offer e s).1 t (offer-room e s live hit room) (
            lost,
            ap (λ l. s.queue ++ some e ∷ l) (sym (taken-same s t es refl refl))
                ∙ sym (++-assoc s.queue (some e ∷ []) (taken t es))
                ∙ p,
            d,
          ))
    | inl full ↦
        let t = with_loss e s in
        let (lost, p, d) = offer_all-LostOldest t es live in
        rw hit (
          LostOldest-at s (some e ∷ taken s es) es (offer e s).1 t (offer-loss e s live hit full) (
            LostOldest-full s.queue s.dropped (some e) (taken s es) (offer_all es t) (ground arith)
              lost
              (ap (λ l. (drop_oldest s.queue ++ some e ∷ []) ++ l)
                  (sym (taken-same s t es refl refl))
                ∙ p)
              d))
  ]
]
