-- ===== src/VppVec/Valid.antt =====
-- The list that a vector holds, and the pointer accesses on vectors that hold one.
use vpp_plugin_rs.Prelude.{
  drop_within, take_past, drop_past, ℕ, zero, suc, ◌+◌, ◌≤◌, ◌<◌, ◌≡◌, refl, ap, sym, ◌∙◌, Option,
  none, some, List, [], ◌∷◌, ◌++◌, map, length, take, drop, get_elem?, arith, append_assoc,
  length-append, length-map, take_prefix, drop_prefix, get_elem?_prefix, set_prefix, le→leb, lt→ltb,
}
use vpp_plugin_rs.Outcome.{ok, u8_mod, u32_mod}
use vpp_plugin_rs.VppVec.Raw.{VecRef, Vec, read, write, copy, read_all, initialised}

-- `v` holds the elements `xs`: they fill its first slots, `len` counts them, and `grow_elts` counts
-- no more than the slots behind them.
pub record Holds {ℓ} {T : Type ℓ} (v : VecRef T) (xs : List T) : Type ℓ where
  pub spare : List (Option T)
  pub layout : v.slots ≡ map some xs ++ spare
  pub len_eq : v.len ≡ length xs
  pub room : v.grow_elts ≤ length spare
  pub byte : v.grow_elts < u8_mod
  pub word : v.len + v.grow_elts < u32_mod

-- The null pointer is the empty vector.
abbrev pub Represents {ℓ} : {T : Type ℓ} → Vec T → List T → Type ℓ
Represents none xs = xs ≡ []
Represents (some v) xs = Holds v xs

module _ {ℓ} {T : Type ℓ} where
  pub length-some : (xs : List T) → length (map {B = Option T} some xs) ≡ length xs
  length-some xs = length-map some xs

  pub read_front :
      (slots : List (Option T)) (front : List T) (x : T) (rest : List (Option T)) (i : ℕ)
      → slots ≡ map some front ++ some x ∷ rest
      → i ≡ length front
      → read slots i ≡ ok x
  unfolding read
  read_front slots front x rest i e h = ap initialised (
      ap (λ s. get_elem? s i) e
      ∙ get_elem?_prefix i (map some front) (some x) rest (h ∙ sym (length-some front)))

  pub write_front :
      (slots : List (Option T)) (front : List T) (old : Option T) (rest : List (Option T)) (i : ℕ)
      (x : T)
      → slots ≡ map some front ++ old ∷ rest
      → i ≡ length front
      → write slots i x ≡ ok (map some front ++ some x ∷ rest)
  unfolding write
  write_front slots front old rest i x e h =
      rw (e, lt→ltb i (length (map some front ++ old ∷ rest)) inside)
        (ap ok (set_prefix i (map some front) old rest (some x) (h ∙ sym (length-some front))))
    where
      inside : i < length (map some front ++ old ∷ rest)
      inside = omega (arith, length-append (map some front) (old ∷ rest), length-some front)

  pub read_all_front :
      (xs : List T) (rest : List (Option T)) (n : ℕ)
      → n ≡ length xs
      → read_all (map some xs ++ rest) n ≡ ok xs
  unfolding read_all
  read_all_front [] rest zero e = refl
  read_all_front [] rest (suc n) e = absurd (omega arith)
  read_all_front (x ∷ xs) rest zero e = absurd (omega arith)
  read_all_front (x ∷ xs) rest (suc n) e = rw (read_all_front xs rest n (omega arith))

  copy_parts :
      (slots a b c : List (Option T)) (from to count : ℕ)
      → from + count ≤ length slots
      → to + count ≤ length slots
      → take to slots ≡ a
      → take count (drop from slots) ≡ b
      → drop (to + count) slots ≡ c
      → copy slots from to count ≡ ok (a ++ (b ++ c))
  unfolding copy
  copy_parts slots a b c from to count h k ea eb ec =
      rw (le→leb (from + count) (length slots) h, le→leb (to + count) (length slots) k, ea, eb, ec)

  -- `ptr::copy` of `b` down by one slot, over `x`. The slots that it leaves keep what they held.
  pub copy_down :
      (a : List (Option T)) (x : Option T) (b rest : List (Option T)) (count : ℕ)
      → count ≡ length b
      → copy (a ++ x ∷ (b ++ rest)) (length a + 1) (length a) count
        ≡ ok (a ++ (b ++ (drop count (x ∷ b) ++ rest)))
  copy_down a x b rest count e =
      copy_parts slots a b _ (length a + 1) (length a) count (omega (arith, total))
        (omega (arith, total)) (take_prefix (length a) a _ refl)
        (ap (take count) (drop_past (length a + 1) 1 a (x ∷ (b ++ rest)) refl)
          ∙ take_prefix count b rest e)
        (drop_past (length a + count) count a (x ∷ (b ++ rest)) refl
          ∙ drop_within count (x ∷ b) rest (omega arith))
    where
      slots : List (Option T)
      slots = a ++ x ∷ (b ++ rest)

      total : length slots ≡ length a + (length b + length rest + 1)
      total = omega (arith, length-append a (x ∷ (b ++ rest)), length-append b rest)

  -- What the first slot from `b` on holds, with the free slot `s` behind `b`.
  abbrev pub first_slot : List (Option T) → Option T → Option T
  first_slot [] s = s
  first_slot (y ∷ b) s = y

  take-first_slot :
      (b : List (Option T)) (s : Option T) (rest : List (Option T))
      → take 1 (b ++ s ∷ rest) ≡ first_slot b s ∷ []
  take-first_slot [] s rest = refl
  take-first_slot (y ∷ b) s rest = refl

  -- `ptr::copy` of `b` up by one slot, over the free slot `s`.
  pub copy_up :
      (a b : List (Option T)) (s : Option T) (rest : List (Option T)) (i count : ℕ)
      → i ≡ length a
      → count ≡ length b
      → copy (a ++ (b ++ s ∷ rest)) i (i + 1) count ≡ ok (a ++ first_slot b s ∷ (b ++ rest))
  copy_up a b s rest i count ei e =
      copy_parts slots (a ++ first_slot b s ∷ []) b rest i (i + 1) count (omega (arith, total))
        (omega (arith, total))
        (take_past (i + 1) 1 a _ (omega arith) ∙ ap (λ t. a ++ t) (take-first_slot b s rest))
        (ap (take count) (drop_prefix i a _ ei) ∙ take_prefix count b (s ∷ rest) e)
        (drop_past (i + 1 + count) (suc count) a _ (omega arith)
          ∙ drop_past (suc count) 1 b (s ∷ rest) (omega arith))
      ∙ ap ok (append_assoc a (first_slot b s ∷ []) (b ++ rest))
    where
      slots : List (Option T)
      slots = a ++ (b ++ s ∷ rest)

      total : length slots ≡ length a + (length b + length rest + 1)
      total = omega (arith, length-append a (b ++ s ∷ rest), length-append b (s ∷ rest))
