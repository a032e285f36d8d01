-- ===== src/Network/Ports/Compress.antt =====
-- `port_list_compress` of ospd/network.py.
pub mod RoundTrip
use ospd_openvas.Prelude.{
  ℕ, suc, ◌+◌, ◌≡◌, refl, Bool, List, [], ◌∷◌, ◌++◌, map, ◌==◌, if◌then◌else◌,
}
use ospd_openvas.Py.Text.{Text, codes, join}
use ospd_openvas.Py.Number.{str}
use ospd_openvas.Py.Order.{sort_set}

-- `enumerate(l)`, with the first index `i`.
unfoldable pub enumerate : ℕ → List ℕ → List (ℕ × ℕ)
enumerate i [] = []
enumerate i (x ∷ l) = (i, x) ∷ enumerate (suc i) l

-- The keys `t[1] - t[0]` of two pairs are equal.
unfoldable pub same_key : ℕ × ℕ → ℕ × ℕ → Bool
same_key (i, x) (j, y) = x + j == y + i

unfoldable pub add_to_groups : ℕ × ℕ → List (List (ℕ × ℕ)) → List (List (ℕ × ℕ))
add_to_groups t [] = (t ∷ []) ∷ []
add_to_groups t ([] ∷ gs) = (t ∷ []) ∷ gs
add_to_groups t ((u ∷ g) ∷ gs) = if same_key t u then (t ∷ u ∷ g) ∷ gs else (t ∷ []) ∷ (u ∷ g) ∷ gs

-- `itertools.groupby(l, key)`: neighbours with equal keys.
unfoldable pub groupby : List (ℕ × ℕ) → List (List (ℕ × ℕ))
groupby [] = []
groupby (t ∷ l) = add_to_groups t (groupby l)

-- `group[-1][1]` of the group `t ∷ g`.
unfoldable pub last_port : ℕ × ℕ → List (ℕ × ℕ) → ℕ
last_port (i, x) [] = x
last_port t (u ∷ g) = last_port u g

-- One group as text: its port, or its first and last port. A group is not empty.
unfoldable pub group_text : List (ℕ × ℕ) → Text
group_text [] = []
group_text ((i, x) ∷ g) =
    let last = last_port (i, x) g in if x == last then str x else str x ++ (b'-' ∷ str last)

unfoldable pub port_list_compress : List ℕ → Text
port_list_compress [] = []
port_list_compress (p ∷ ports) =
    join b',' (map group_text (groupby (enumerate 0 (sort_set (p ∷ ports)))))

tests : port_list_compress (8 ∷ 1 ∷ 2 ∷ 3 ∷ 2 ∷ 10 ∷ 11 ∷ []) ≡ codes "1-3,8,10-11"
unfolding enumerate same_key add_to_groups groupby last_port str group_text sort_set join
    port_list_compress
tests = refl
