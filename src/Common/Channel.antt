-- ===== src/Common/Channel.antt =====
-- The sending half of a bounded channel, whose other half may be closed at any time.
use Prim.Native.Nat.{ℕ, zero, suc}
use mathlib.Core.Bool.{Bool, true, false}
use mathlib.Core.Option.{Option, none, some}
use mathlib.Core.List.{List, [], ◌∷◌, ◌++◌}

pub record Channel (E : Type 0) : Type 0 where
  -- oldest first
  pub sent : List E
  -- how many sends succeed before the other half is closed, if it ever is
  pub room : Option ℕ

module _ {E : Type 0} where
  abbrev deliver : E → List E → Option ℕ → Channel E × Bool
  deliver e sent none = (record { sent = sent ++ (e ∷ []); room = none }, true)
  deliver e sent (some zero) = (record { sent = sent; room = some zero }, false)
  deliver e sent (some (suc n)) = (record { sent = sent ++ (e ∷ []); room = some n }, true)

  -- `true` if the event was sent.
  unfoldable pub send : E → Channel E → Channel E × Bool
  send e o = deliver e o.sent o.room
