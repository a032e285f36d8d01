-- ===== src/Network/Ports/Compress/RoundTrip.antt =====
-- `port_list_compress` is read back by the loop of `ports_as_list` over the items of a list.
use ospd_openvas.Prelude.{
  All-append, inr, inl, ◌==◌, Bool-cases, ◌-◌, ap, ◌∙◌, ◌+◌, refl, map, [], All, length, List, ℕ,
  suc, ◌≡◌, ◌++◌, ◌∷◌, some, arith,
}
use ospd_openvas.Py.Order.Sorted.{sort_set-IsIncreasing, sort_of_IsIncreasing}
use ospd_openvas.Py.Text.{has_char, join, split, Text}
use ospd_openvas.Py.Text.Parts.{
  split-join, has_char_of_Lacks, has_char-append, Lacks, find-append, take-length-append,
  drop-suc-append,
}
use ospd_openvas.Py.Order.{sort, sort_set, count_up, range}
use ospd_openvas.Py.Result.{◌>>=◌, ok}
use ospd_openvas.Network.Ports.Compress.{
  port_list_compress, same_key, enumerate, group_text, groupby, add_to_groups, last_port,
}
use ospd_openvas.Network.Ports.{port_list, ports_of_item, ports_of_items, port_range_expand}
use ospd_openvas.Py.Number.{str}
use ospd_openvas.Py.Number.RoundTrip.{IsDigit, str-IsDigit, int-str, str-ne-nil, Lacks-of_IsDigit}

Lacks-str : (c n : ℕ) → ¬ IsDigit c → Lacks c (str n)
Lacks-str c n h = Lacks-of_IsDigit c (str n) h (str-IsDigit n)

-- "a-b" stands for the ports from a to b.
pub port_range_expand-str :
    (a b : ℕ) → port_range_expand (str a ++ (b'-' ∷ str b)) ≡ some (range a (suc b))
unfolding port_range_expand
port_range_expand-str a b = ground (
  arith,
  find-append b'-' (str b) (str a) (Lacks-str b'-' a (omega arith)),
  take-length-append (str a) (b'-' ∷ str b),
  drop-suc-append (str a) (str b) b'-',
  int-str a,
  int-str b,
)

ports_of_item-range : (a b : ℕ) → ports_of_item (str a ++ (b'-' ∷ str b)) ≡ ok (range a (suc b))
unfolding ports_of_item
ports_of_item-range a b =
    ground (arith, has_char-append b'-' (str b) (str a), port_range_expand-str a b)

ports_of_item-str : (a : ℕ) → ports_of_item (str a) ≡ ok (a ∷ [])
unfolding ports_of_item
ports_of_item-str a = ground (
  arith,
  has_char_of_Lacks b'-' (str a) (Lacks-str b'-' a (omega arith)),
  str-ne-nil a,
  int-str a,
)

-- `g` goes on behind the pair `t` by pairs with indices and ports one higher each.
abbrev pub Chain : ℕ × ℕ → List (ℕ × ℕ) → Type 0
Chain t [] = Unit
Chain t (u ∷ g) = (u.0 ≡ suc t.0) × (u.1 ≡ suc t.1) × Chain u g

-- A group that is not empty, of consecutive ports.
abbrev pub IsRun : List (ℕ × ℕ) → Type 0
IsRun [] = ⊥
IsRun (t ∷ g) = Chain t g

abbrev values : List (ℕ × ℕ) → List ℕ
values [] = []
values (t ∷ g) = t.1 ∷ values g

abbrev flat_values : List (List (ℕ × ℕ)) → List ℕ
flat_values [] = []
flat_values (g ∷ gs) = values g ++ flat_values gs

last_port-Chain : (i x : ℕ) (g : List (ℕ × ℕ)) → Chain (i, x) g → last_port (i, x) g ≡ x + length g
unfolding last_port
last_port-Chain i x [] h = omega arith
last_port-Chain i x ((j, y) ∷ g) (_, e, h) = omega (arith, last_port-Chain j y g h)

values-Chain :
    (i x : ℕ) (g : List (ℕ × ℕ)) → Chain (i, x) g → values g ≡ count_up (suc x) (length g)
unfolding count_up
values-Chain i x [] h = refl
values-Chain i x ((j, y) ∷ g) (_, e, h) = cc (values-Chain j y g h)

range_of_count : (x n : ℕ) → range x (suc (x + suc n)) ≡ x ∷ count_up (suc x) (suc n)
unfolding range count_up
range_of_count x n = ap (count_up x) {x = suc (x + suc n) - x} {y = suc (suc n)} (omega arith)

ports_of_item-group_text :
    (g : List (ℕ × ℕ)) → IsRun g → ports_of_item (group_text g) ≡ ok (values g)
unfolding group_text
ports_of_item-group_text [] h = absurd h
ports_of_item-group_text ((i, x) ∷ []) h =
    ground (arith, last_port-Chain i x [] h, ports_of_item-str x)
ports_of_item-group_text ((i, x) ∷ (u ∷ g)) h =
    let last : ℕ = last_port (i, x) (u ∷ g) in
    ground (
      arith,
      last_port-Chain i x (u ∷ g) h,
      values-Chain i x (u ∷ g) h,
      ports_of_item-range x last,
      range_of_count x (length g),
    )

add_to_groups-IsRun :
    (i x y : ℕ) (gs : List (List (ℕ × ℕ)))
    → All IsRun (add_to_groups (suc i, y) gs)
    → All IsRun (add_to_groups (i, x) (add_to_groups (suc i, y) gs))
unfolding add_to_groups same_key
add_to_groups-IsRun i x y [] h = ground arith
add_to_groups-IsRun i x y ([] ∷ gs) h = ground arith
add_to_groups-IsRun i x y ((u ∷ g) ∷ gs) h = ground arith

pub groupby-IsRun : (i : ℕ) (l : List ℕ) → All IsRun (groupby (enumerate i l))
unfolding groupby enumerate
groupby-IsRun i [] = tt
groupby-IsRun i (x ∷ []) = unfold add_to_groups in (tt, tt)
groupby-IsRun i (x ∷ y ∷ l) =
    add_to_groups-IsRun i x y (groupby (enumerate (suc (suc i)) l)) (groupby-IsRun (suc i) (y ∷ l))

flat_values-add_to_groups :
    (t : ℕ × ℕ) (gs : List (List (ℕ × ℕ))) → flat_values (add_to_groups t gs) ≡ t.1 ∷ flat_values gs
unfolding add_to_groups
flat_values-add_to_groups t [] = refl
flat_values-add_to_groups t ([] ∷ gs) = refl
flat_values-add_to_groups t ((u ∷ g) ∷ gs) = ground arith

flat_values-groupby : (i : ℕ) (l : List ℕ) → flat_values (groupby (enumerate i l)) ≡ l
unfolding groupby enumerate
flat_values-groupby i [] = refl
flat_values-groupby i (x ∷ l) =
    flat_values-add_to_groups (i, x) (groupby (enumerate (suc i) l))
    ∙ ap (λ r. x ∷ r) (flat_values-groupby (suc i) l)

ports_of_items-groups :
    (gs : List (List (ℕ × ℕ)))
    → All IsRun gs
    → ports_of_items (map group_text gs) ≡ ok (flat_values gs)
unfolding ports_of_items
ports_of_items-groups [] h = refl
ports_of_items-groups (g ∷ gs) (h, hs) =
    rw (ports_of_item-group_text g h, ports_of_items-groups gs hs)

Lacks-group_text : (g : List (ℕ × ℕ)) → Lacks b',' (group_text g)
unfolding group_text
Lacks-group_text [] = tt
Lacks-group_text ((i, x) ∷ g) =
    let last : ℕ = last_port (i, x) g in
    elim (Bool-cases (x == last)) [
      | inl e ↦ rw e (Lacks-str b',' x (omega arith))
      | inr e ↦ rw e (
          All-append _ (str x) (b'-' ∷ str last) (Lacks-str b',' x (omega arith))
            (omega arith, Lacks-str b',' last (omega arith)))
    ]

Lacks-group_texts : (gs : List (List (ℕ × ℕ))) → All (Lacks b',') (map group_text gs)
Lacks-group_texts [] = tt
Lacks-group_texts (g ∷ gs) = (Lacks-group_text g, Lacks-group_texts gs)

port_list_step :
    (s : Text) → port_list s ≡ (ports_of_items (split b',' s) >>= λ ports. ok (sort ports))
port_list_step [] = unfold port_list split ports_of_items ports_of_item has_char sort in refl
port_list_step (c ∷ s) = unfold port_list in refl

port_list-groups :
    (gs : List (List (ℕ × ℕ)))
    → All IsRun gs
    → port_list (join b',' (map group_text gs)) ≡ ok (sort (flat_values gs))
port_list-groups [] h = unfold port_list sort join in refl
port_list-groups (g ∷ gs) h = rw (
  port_list_step,
  split-join b',' (group_text g) (map group_text gs) (Lacks-group_texts (g ∷ gs)),
  ports_of_items-groups (g ∷ gs) h,
)

-- Compressing a list of ports gives a text whose items, read by the loop of `ports_as_list`, are
-- the ports of the list, in order and once each.
pub port_list-port_list_compress :
    (ports : List ℕ) → port_list (port_list_compress ports) ≡ ok (sort_set ports)
port_list-port_list_compress [] = unfold port_list port_list_compress sort_set in refl
port_list-port_list_compress (p ∷ ports) =
    let u : List ℕ = sort_set (p ∷ ports) in
    let gs : List (List (ℕ × ℕ)) = groupby (enumerate 0 u) in
    unfold port_list_compress in
    port_list-groups gs (groupby-IsRun 0 u)
    ∙ ap (λ l. ok (sort l)) (flat_values-groupby 0 u)
    ∙ ap ok (sort_of_IsIncreasing u (sort_set-IsIncreasing (p ∷ ports)))
