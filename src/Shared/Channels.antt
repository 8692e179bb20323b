-- ===== src/Shared/Channels.antt =====
-- The channels by which the services tell their subscribers of a new key.
use Prim.Native.Nat.{ℕ}
use mathlib.Core.List.{List, [], ◌∷◌, ◌++◌}
use invariant_go.Shared.Tests.{ltb, if◌then◌else◌}
use invariant_go.Shared.Lists.{length}
use invariant_go.Shared.Hex.{Text}

-- A channel with its capacity of 100, as the values that wait in it.
abbrev pub channel_capacity : ℕ
channel_capacity = 100

abbrev pub Channel : Type 0
Channel = List Text

-- `select` with a default: what does not fit is dropped.
unfoldable pub send : Text → Channel → Channel
send id ch = if ltb (length ch) channel_capacity then ch ++ id ∷ [] else ch
