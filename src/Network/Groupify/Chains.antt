-- ===== src/Network/Groupify/Chains.antt =====
-- Chains of connections lead back, and on.
use pact_broker.Prelude.{List}
use mathlib.Core.List.{Memᴰ}
use pact_broker.Network.{IndexItem}
use pact_broker.Network.Groupify.Pass.{connected_comm}
use pact_broker.Network.Groupify.Grown.{Chain, here, onward}

module _ (items : List IndexItem) where
  Chain-end : (x y : IndexItem) → Memᴰ x items → Chain items x y → Memᴰ y items
  Chain-end x y m here = m
  Chain-end x y m (onward c n e) = n

  Chain-trans : (x y z : IndexItem) → Chain items x y → Chain items y z → Chain items x z
  Chain-trans x y z c here = c
  Chain-trans x y z c (onward {x = w} d n e) = onward (Chain-trans x y w c d) n e

  Chain-symm : (x y : IndexItem) → Memᴰ x items → Chain items x y → Chain items y x
  Chain-symm x y m here = here
  Chain-symm x y m (onward {x = w} c n e) =
      Chain-trans y w x (onward here (Chain-end x w m c) (connected_comm w y e))
        (Chain-symm x w m c)

  -- Two items that chains from a third lead to.
  pub Chain-between :
      (w x y : IndexItem) → Memᴰ w items → Chain items w x → Chain items w y → Chain items x y
  Chain-between w x y m c d = Chain-trans x w y (Chain-symm w x m c) d

pub Chain-weaken :
    (some_items items : List IndexItem) (x y : IndexItem)
    → ((z : IndexItem) → Memᴰ z some_items → Memᴰ z items)
    → Chain some_items x y
    → Chain items x y
Chain-weaken some_items items x y inside here = here
Chain-weaken some_items items x y inside (onward {x = w} c m e) =
    onward (Chain-weaken some_items items x w inside c) (inside y m) e
