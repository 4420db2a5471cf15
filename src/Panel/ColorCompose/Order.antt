-- ===== src/Panel/ColorCompose/Order.antt =====
-- foldLayers: the order of the layers.
use lightnet_firmware.Common.{
  ℕ, ◌≤◌, ◌<◌, ◌≡◌, refl, ap, sym, ◌∙◌, List, [], ◌∷◌, arith, ◌==◌, if◌then◌else◌, All,
}
use lightnet_firmware.Protocol.Color.{ColorRgb}
use lightnet_firmware.Panel.ColorCompose.{
  CompositeLayer, insert_layer, sort_layers, fold_sorted, fold_layers,
}

-- The layers of one order, in their order.
abbrev pub with_order : ℕ → List CompositeLayer → List CompositeLayer
with_order k [] = []
with_order k (l ∷ ls) = if l.compose_order == k then l ∷ with_order k ls else with_order k ls

abbrev Descending : List CompositeLayer → Type 0
Descending [] = Unit
Descending (l ∷ ls) = All (λ m. m.compose_order ≤ l.compose_order) ls × Descending ls

insert_layer-All :
    (n : ℕ) (l : CompositeLayer) (ls : List CompositeLayer)
    → l.compose_order ≤ n
    → All (λ m. m.compose_order ≤ n) ls
    → All (λ m. m.compose_order ≤ n) (insert_layer l ls)
unfolding insert_layer
insert_layer-All n l [] h a = (h, tt)
insert_layer-All n l (m ∷ ls) h a = ground (arith, insert_layer-All n l ls)

All-le_trans :
    (m n : ℕ) (ls : List CompositeLayer)
    → m ≤ n
    → All (λ l. l.compose_order ≤ m) ls
    → All (λ l. l.compose_order ≤ n) ls
All-le_trans m n [] h a = tt
All-le_trans m n (l ∷ ls) h a = (omega arith, All-le_trans m n ls h a.1)

insert_layer-Descending :
    (l : CompositeLayer) (ls : List CompositeLayer) → Descending ls → Descending (insert_layer l ls)
unfolding insert_layer
insert_layer-Descending l [] d = (tt, tt)
insert_layer-Descending l (m ∷ ls) d = ground (
  arith,
  insert_layer-Descending l ls,
  insert_layer-All m.compose_order l ls,
  All-le_trans m.compose_order l.compose_order ls,
)

sort_layers-Descending :
    (sorted rest : List CompositeLayer) → Descending sorted → Descending (sort_layers sorted rest)
unfolding sort_layers
sort_layers-Descending sorted [] d = d
sort_layers-Descending sorted (l ∷ rest) d =
    sort_layers-Descending (insert_layer l sorted) rest (insert_layer-Descending l sorted d)

-- A layer goes above those of its own order.
with_order-insert_layer :
    (k : ℕ) (l : CompositeLayer) (ls : List CompositeLayer)
    → with_order k (insert_layer l ls)
      ≡ (if l.compose_order == k then l ∷ with_order k ls else with_order k ls)
unfolding insert_layer
with_order-insert_layer k l [] = refl
with_order-insert_layer k l (m ∷ ls) = ground (arith, with_order-insert_layer k l ls)

-- The layers of one order, listed from the end of the array, on those before.
abbrev push_order : ℕ → List CompositeLayer → List CompositeLayer → List CompositeLayer
push_order k [] acc = acc
push_order k (l ∷ ls) acc = push_order k ls (if l.compose_order == k then l ∷ acc else acc)

with_order-sort_layers :
    (k : ℕ) (sorted rest : List CompositeLayer)
    → with_order k (sort_layers sorted rest) ≡ push_order k rest (with_order k sorted)
unfolding sort_layers
with_order-sort_layers k sorted [] = refl
with_order-sort_layers k sorted (l ∷ rest) =
    with_order-sort_layers k (insert_layer l sorted) rest
    ∙ ap (push_order k rest) (with_order-insert_layer k l sorted)

abbrev stack : List CompositeLayer → List CompositeLayer → List CompositeLayer
stack [] acc = acc
stack (l ∷ ls) acc = stack ls (l ∷ acc)

push_order-eq-stack :
    (k : ℕ) (ls acc : List CompositeLayer) → push_order k ls acc ≡ stack (with_order k ls) acc
push_order-eq-stack k [] acc = refl
push_order-eq-stack k (l ∷ ls) acc =
    ground (arith, push_order-eq-stack k ls acc, push_order-eq-stack k ls (l ∷ acc))

with_order-above :
    (k n : ℕ) (ls : List CompositeLayer)
    → All (λ m. m.compose_order ≤ n) ls
    → n < k
    → with_order k ls ≡ []
with_order-above k n [] a h = refl
with_order-above k n (l ∷ ls) a h = ground (arith, with_order-above k n ls)

with_order-head :
    (l : CompositeLayer) (ls : List CompositeLayer)
    → with_order l.compose_order (l ∷ ls) ≡ l ∷ with_order l.compose_order ls
with_order-head l ls = ground arith

order-le-head :
    (x y : CompositeLayer) (xs ys : List CompositeLayer)
    → Descending (y ∷ ys)
    → with_order x.compose_order (x ∷ xs) ≡ with_order x.compose_order (y ∷ ys)
    → x.compose_order ≤ y.compose_order
order-le-head x y xs ys d e =
    ground (arith, with_order-head x xs, with_order-above x.compose_order y.compose_order (y ∷ ys))

-- Two lists that list each order alike and begin with layers of one order.
same_head :
    (x y : CompositeLayer) (xs ys : List CompositeLayer)
    → x.compose_order ≡ y.compose_order
    → with_order x.compose_order (x ∷ xs) ≡ with_order x.compose_order (y ∷ ys)
    → x ≡ y
same_head x y xs ys e same = ground arith

same_tails :
    (k : ℕ) (x : CompositeLayer) (xs ys : List CompositeLayer)
    → with_order k (x ∷ xs) ≡ with_order k (x ∷ ys)
    → with_order k xs ≡ with_order k ys
same_tails k x xs ys same = ground arith

-- A sorted list is fixed by the layers of each order.
Descending-unique :
    (xs ys : List CompositeLayer)
    → Descending xs
    → Descending ys
    → ((k : ℕ) → with_order k xs ≡ with_order k ys)
    → xs ≡ ys
Descending-unique [] [] dx dy same = refl
Descending-unique [] (y ∷ ys) dx dy same = absurd (cc (same y.compose_order, with_order-head y ys))
Descending-unique (x ∷ xs) [] dx dy same = absurd (cc (same x.compose_order, with_order-head x xs))
Descending-unique (x ∷ xs) (y ∷ ys) dx dy same =
    let le = order-le-head x y xs ys dy (same x.compose_order) in
    let ge = order-le-head y x ys xs dx (sym (same y.compose_order)) in
    let e = same_head x y xs ys (omega arith) (same x.compose_order) in
    let tails =
      Descending-unique xs ys dx.1 dy.1 (λ k. same_tails k x xs ys (rw (← e) at (same k))) in
    cc (e, tails)

-- The colour depends on the order only of layers with the same `composeOrder`: two arrays of layers
-- that list those of each `composeOrder` alike fold to the same colour.
pub fold_layers_stable :
    (xs ys : List CompositeLayer) (base : ColorRgb)
    → ((k : ℕ) → with_order k xs ≡ with_order k ys)
    → fold_layers xs base ≡ fold_layers ys base
unfolding fold_layers
fold_layers_stable xs ys base same = ap (fold_sorted base) (
    Descending-unique (sort_layers [] xs) (sort_layers [] ys) (sort_layers-Descending [] xs tt)
      (sort_layers-Descending [] ys tt)
      (λ k.
        with_order-sort_layers k [] xs
        ∙ push_order-eq-stack k xs []
        ∙ ap (λ l. stack l []) (same k)
        ∙ sym (push_order-eq-stack k ys [])
        ∙ sym (with_order-sort_layers k [] ys)))
