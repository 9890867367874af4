-- ===== src/Transport/Channel/Ordered.antt =====
-- What the reader gets from the channel, in every order of its moves.
use slack_mcp_extender.Base.{
  ℕ, ◌≤◌, String, ◌≡◌, refl, sym, ap, ◌∙◌, false, Bool-cases, inl, inr, List, [], ◌∷◌, ◌++◌,
  append_assoc, append-nil, length, length-append, arith, if◌then◌else◌, eqb,
}
use slack_mcp_extender.Transport.Channel.{
  Channel, capacity, leave, Move, queues, gives_up, reads, ends, closes, Arises, start, move,
}

-- The messages of one goroutine.
abbrev pub from : ℕ → List (ℕ × String) → List String
from i [] = []
from i ((j, m) ∷ xs) = let rest = from i xs in if eqb i j then m ∷ rest else rest

from-append : (i : ℕ) (xs ys : List (ℕ × String)) → from i (xs ++ ys) ≡ from i xs ++ from i ys
from-append i [] ys = refl
from-append i ((j, m) ∷ xs) ys = elim (Bool-cases (eqb i j)) [
  | inl t ↦ rw t (ap (λ l. m ∷ l) (from-append i xs ys))
  | inr f ↦ rw f (from-append i xs ys)
]

module _ (given : ℕ → List String) where
  -- The reader gets what was queued, in that order, and there are never more messages in the channel
  -- than it has room for. Until the transport is closed, what each goroutine had to queue is what it
  -- queued, in its order, and what it has left.
  pub record IsOrdered (c : Channel) : Type 0 where
    pub in_order : c.accepted ≡ c.taken ++ c.queued
    pub bounded : length c.queued ≤ capacity
    pub complete : c.is_closed ≡ false → (i : ℕ) → given i ≡ from i c.accepted ++ c.left i

  queued_complete :
      (i j : ℕ) (m : String) (ms : List String) (c : Channel)
      → c.left i ≡ m ∷ ms
      → given j ≡ from j c.accepted ++ c.left j
      → given j ≡ from j (c.accepted ++ ((i, m) ∷ [])) ++ leave i ms c.left j
  queued_complete i j m ms c h k = elim (Bool-cases (eqb j i)) [
    | inl t ↦
        let same : j ≡ i = ground arith in
        rw (from-append j c.accepted ((i, m) ∷ []), t)
          (k
            ∙ (ap (λ l. from j c.accepted ++ l) (ap c.left same ∙ h)
                ∙ sym (append_assoc (from j c.accepted) (m ∷ []) ms)))
    | inr f ↦
        rw (from-append j c.accepted ((i, m) ∷ []), f)
          (k ∙ ap (λ l. l ++ c.left j) (sym (append-nil (from j c.accepted))))
  ]

  next-IsOrdered : (c d : Channel) → Move c d → IsOrdered c → IsOrdered d
  next-IsOrdered c d (queues i m ms h room) o = record {
    in_order =
        ap (λ l. l ++ ((i, m) ∷ [])) o.in_order ∙ append_assoc c.taken c.queued ((i, m) ∷ []);
    bounded = omega (arith, length-append c.queued ((i, m) ∷ []), room);
    complete = λ open_yet j. queued_complete i j m ms c h (o.complete open_yet j);
  }
  next-IsOrdered c d (gives_up i m ms h closed) o = record {
    in_order = o.in_order;
    bounded = o.bounded;
    complete = λ open_yet j. cc;
  }
  next-IsOrdered c d (reads {x} {xs} h) o = record {
    in_order = o.in_order ∙ (ap (λ l. c.taken ++ l) h ∙ sym (append_assoc c.taken (x ∷ []) xs));
    bounded = omega (arith, o.bounded, ap length h);
    complete = o.complete;
  }
  next-IsOrdered c d (ends h) o = o
  next-IsOrdered c d closes o = record {
    in_order = o.in_order;
    bounded = o.bounded;
    complete = λ open_yet i. cc;
  }

  -- In every state of the channel that the goroutines' moves lead to, in any order, ReadLine has
  -- returned the first of the messages that were queued, each once and in the order in which they
  -- were, and the others, at most 64, are in the channel. Until Close, each goroutine has queued the
  -- first of its messages in their order and has the others left: none is lost.
  pub arises-IsOrdered : (c : Channel) → Arises given c → IsOrdered c
  arises-IsOrdered c start = record {
    in_order = refl;
    bounded = omega arith;
    complete = λ open_yet i. refl;
  }
  arises-IsOrdered c (move a m) = next-IsOrdered _ c m (arises-IsOrdered _ a)
