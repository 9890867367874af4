-- ===== src/Transport/Channel.antt =====
-- internal/transport/sse.go: the channel of messages between the goroutines that queue them and the
-- one that reads them.
pub mod Ordered
use slack_mcp_extender.Base.{
  ℕ, ◌<◌, String, Bool, true, false, ◌≡◌, List, [], ◌∷◌, ◌++◌, length, if◌then◌else◌, eqb,
}

-- The messages with the number of the goroutine that queued each: those that were queued, those that
-- are in the channel, and those that `ReadLine` returned. `left` has what each goroutine has still to
-- queue.
pub record Channel : Type 0 where
  pub left : ℕ → List String
  pub accepted : List (ℕ × String)
  pub queued : List (ℕ × String)
  pub taken : List (ℕ × String)
  pub is_closed : Bool

abbrev pub fresh_channel : (ℕ → List String) → Channel
fresh_channel given = record {
  left = given;
  accepted = [];
  queued = [];
  taken = [];
  is_closed = false;
}

-- `make(chan []byte, 64)`
abbrev pub capacity : ℕ
capacity = 64

abbrev pub leave : ℕ → List String → (ℕ → List String) → ℕ → List String
leave i messages left j = if eqb j i then messages else left j

-- `enqueue` and `ReadLine` each take one of the ways of their `select` that are open; a message that
-- finds the channel full waits, and is given up where the transport is closed.
pub data Move : Channel → Channel → Type 0 where
  queues :
      (i : ℕ) (m : String) (ms : List String) {c : Channel}
      → c.left i ≡ m ∷ ms
      → length c.queued < capacity
      → Move c (record c {
        left = leave i ms c.left;
        accepted = c.accepted ++ ((i, m) ∷ []);
        queued = c.queued ++ ((i, m) ∷ []);
      })
  gives_up :
      (i : ℕ) (m : String) (ms : List String) {c : Channel}
      → c.left i ≡ m ∷ ms
      → c.is_closed ≡ true
      → Move c (record c { left = leave i ms c.left })
  reads :
      {x : ℕ × String} {xs : List (ℕ × String)} {c : Channel}
      → c.queued ≡ x ∷ xs
      → Move c (record c { queued = xs; taken = c.taken ++ (x ∷ []) })
  ends : {c : Channel} → c.is_closed ≡ true → Move c c
  closes : {c : Channel} → Move c (record c { is_closed = true })

-- The states that any order of these moves leads to.
pub data Arises (given : ℕ → List String) : Channel → Type 0 where
  start : Arises given (fresh_channel given)
  move : {c d : Channel} → Arises given c → Move c d → Arises given d
