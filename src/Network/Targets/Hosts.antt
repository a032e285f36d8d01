-- ===== src/Network/Targets/Hosts.antt =====
-- The hosts of a target list: what `target_str_to_list` makes of the items.
use ospd_openvas.Prelude.{
  inr, subst, inl, Bool-cases, sym, ◌∙◌, ◌||◌, none, ap, Option, arith, refl, Any, ◌↔◌, ◌++◌, ◌≢◌,
  some, true, ◌≡◌, All, List, [], ◌∷◌,
}
use ospd_openvas.Py.TextList.{
  fromkeys-NoRepeat, has_text-fromkeys, has_text-append, NoRepeat, has_text,
}
use ospd_openvas.Py.Text.{strip_char, split, strip, Text}
use ospd_openvas.Network.Targets.{
  list_or_empty, target_str_to_list, extend, hosts_of_items, target_to_list, Sockets,
}

some_injective : {a b : List Text} → some a ≡ some b → a ≡ b
some_injective e = cc

module _ (sockets : Sockets) where
  -- The item names the hosts of the list `hosts`, which is not empty.
  abbrev pub Names : Text → List Text → Type 0
  Names item hosts = (target_to_list sockets (strip item) ≡ some hosts) × (hosts ≢ [])

  -- Every item is valid, and a host is in the list exactly if an item names it.
  abbrev pub IsHostList : List Text → List Text → Type 0
  IsHostList items hosts =
      All (λ item. (named : List Text) × Names item named) items
      × ((host : Text)
          → (has_text host hosts ≡ true)
            ↔ Any (λ item. (named : List Text) × Names item named × (has_text host named ≡ true))
                items)

  extend_inv :
      (target_list more : Option (List Text)) (hosts : List Text)
      → extend target_list more ≡ some hosts
      → (named : List Text) × (rest : List Text) × (target_list ≡ some named)
        × (named ≢ [])
        × (more ≡ some rest)
        × (hosts ≡ named ++ rest)
  extend_inv none more hosts h = cc
  extend_inv (some []) more hosts h = cc
  extend_inv (some (x ∷ named)) none hosts h = cc
  extend_inv (some (x ∷ named)) (some rest) hosts h = (x ∷ named, rest, refl, (λ e. cc), refl, cc)

  hosts_of_items-IsHostList :
      (items hosts : List Text) → hosts_of_items sockets items ≡ some hosts → IsHostList items hosts
  unfolding has_text
  hosts_of_items-IsHostList [] hosts h =
      let none_left : hosts ≡ [] = cc in
      (tt, λ host. ((λ e. ground (arith, e, ap (has_text host) none_left)), (λ e. absurd e)))
  hosts_of_items-IsHostList (item ∷ items) hosts h =
      let (named, rest, e, full, run, same) =
        extend_inv (target_to_list sockets (strip item)) (hosts_of_items sockets items) hosts h in
      let (valid, found) = hosts_of_items-IsHostList items rest run in
      let both : (host : Text) → has_text host hosts ≡ has_text host named || has_text host rest =
        λ host. ap (has_text host) same ∙ has_text-append host named rest in
      (
        ((named, (e, full)), valid),
        λ host. (
          (λ k. elim (Bool-cases (has_text host named)) [
            | inl f ↦ inl (named, (e, full), f)
            | inr f ↦ inr ((found host).0 (ground (arith, both host, f, k)))
          ]),
          (λ k. elim k [
            | inl (l, (e2, _), f) ↦
                let same_list : l ≡ named = some_injective (sym e2 ∙ e) in
                let f2 : has_text host named ≡ true = ap (has_text host) (sym same_list) ∙ f in
                ground (arith, both host, f2)
            | inr a ↦ ground (arith, both host, (found host).1 a)
          ]),
        ),
      )

  listed-hosts :
      (items : List Text) (found : Option (List Text)) (hosts : List Text)
      → hosts_of_items sockets items ≡ found
      → list_or_empty sockets found ≡ hosts
      → hosts ≢ []
      → NoRepeat hosts × IsHostList items hosts
  listed-hosts items none hosts h e full = absurd (full (sym e))
  listed-hosts items (some named) hosts h e full =
      let (valid, found) = hosts_of_items-IsHostList items named h in
      let same : (host : Text) → has_text host hosts ≡ has_text host named = λ host.
        ap (has_text host) (sym e) ∙ has_text-fromkeys host [] named ∙ unfold has_text in refl in
      (
        subst NoRepeat e (fromkeys-NoRepeat [] named tt),
        (valid, λ host. rw (same host) (found host)),
      )

  -- Where `target_str_to_list` gives hosts, each of the items between the commas is a valid target;
  -- the hosts are those that the items name, each of them once.
  pub target_str_to_list-hosts :
      (target_str : Text) (hosts : List Text)
      → target_str_to_list sockets target_str ≡ some hosts
      → hosts ≢ []
      → NoRepeat hosts × IsHostList (split b',' (strip_char b',' target_str)) hosts
  unfolding target_str_to_list
  target_str_to_list-hosts [] hosts h full = cc
  target_str_to_list-hosts (c ∷ s) hosts h full =
      listed-hosts (split b',' (strip_char b',' (c ∷ s)))
        (hosts_of_items sockets (split b',' (strip_char b',' (c ∷ s)))) hosts refl
        (some_injective h) full
