-- ===== src/Pools/Ids.antt =====
-- internal/pool/manager.go: `makeID`, the id of a new pool made from its name (ASCII letters).
use simple_mining_proxy.Base.{
  ℕ, zero, suc, ◌+◌, Bool, ◌&&◌, ◌||◌, [], ◌∷◌, ◌++◌, reverse, Text, txt, length, take, ltb, leb,
  ◌==◌, if◌then◌else◌, to_lower,
}
use simple_mining_proxy.State.{File, itoa}
use simple_mining_proxy.Pools.Edit.{has_pool}
use simple_mining_proxy.Pools.Input.{trim}

abbrev pub is_plain : ℕ → Bool
is_plain c = (leb b'a' c && leb c b'z') || (leb b'0' c && leb c b'9')

-- One round of the loop over the letters; the builder stands last byte first.
abbrev pub add_letter : Text → ℕ → Text
add_letter [] c = if is_plain c then c ∷ [] else []
add_letter (d ∷ s) c = if is_plain c then c ∷ d ∷ s else if d == b'_' then d ∷ s else b'_' ∷ d ∷ s

unfoldable pub id_letters : Text → Text → Text
id_letters s [] = s
id_letters s (c ∷ rest) = id_letters (add_letter s c) rest

abbrev pub trim_underscores : Text → Text
trim_underscores = trim (λ c. c == b'_')

abbrev pub cut : Text → Text
cut s = if ltb 24 (length s) then trim_underscores (take 24 s) else s

abbrev pub or_pool : Text → Text
or_pool [] = txt "pool"
or_pool (c ∷ s) = c ∷ s

unfoldable pub id_base : Text → Text
unfolding id_letters
id_base name = or_pool (cut (trim_underscores (reverse (id_letters [] (to_lower name)))))

-- The ids that the last loop tries, in order.
unfoldable pub candidate : Text → ℕ → Text
candidate base zero = base
candidate base (suc k) = base ++ (b'_' ∷ itoa (k + 2))

-- The last loop, from the `k`-th candidate on.
unfoldable pub free_id : File → Text → ℕ → ℕ → Text
free_id f base zero k = candidate base k
free_id f base (suc fuel) k =
    let rest = free_id f base fuel (suc k) in
    if has_pool f (candidate base k) then rest else candidate base k

-- As many rounds as there are pools are enough: see `FreshIds`.
unfoldable pub make_id : Text → File → Text
make_id name f = free_id f (id_base name) (length f.pools) 0
