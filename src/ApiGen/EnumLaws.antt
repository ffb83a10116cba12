-- ===== src/ApiGen/EnumLaws.antt =====
-- The two loops of parser.rs over the variants of an enum number them alike.
use vpp_plugin_rs.ApiGen.Syntax.{
  err, ok, EnumVariant, Result, EnumStatement, ◌>>=◌, too_deep, panicked,
}
use vpp_plugin_rs.ApiGen.Texts.{show_u32, ◌^^◌}
use vpp_plugin_rs.ApiGen.Crc.{
  is_backwards_compatible, next_u32, variant_value, number_variants, enum_data,
}
use vpp_plugin_rs.Prelude.{if◌then◌else◌, ℕ, ◌≡◌, refl, Bool, List, [], ◌∷◌}
use Prim.Native.String.{String}

-- What the checksum covers of the variants: those whose statement is not marked as
-- backwards-compatible.
unfoldable pub covered : List EnumStatement → List EnumVariant → List String
covered [] vs = []
covered (s ∷ ss) [] = []
covered (s ∷ ss) (v ∷ vs) =
    let rest = covered ss vs in
    if is_backwards_compatible s.options
    then rest
    else ("['" ^^ v.id ^^ "', " ^^ show_u32 v.value ^^ "]") ∷ rest

module _ (checks : Bool) where
  tail_lem :
      (s : EnumStatement) (ss : List EnumStatement) (value : ℕ) (m : Result (List EnumVariant))
      → ((m >>= λ vs. ok (covered ss vs)) >>= λ rest. ok (
          if is_backwards_compatible s.options
          then rest
          else ("['" ^^ s.id ^^ "', " ^^ show_u32 value ^^ "]") ∷ rest))
        ≡ ((m >>= λ rest. ok (record { id = s.id; value = value } ∷ rest)) >>= λ vs.
            ok (covered (s ∷ ss) vs))
  unfolding covered
  tail_lem s ss value too_deep = refl
  tail_lem s ss value panicked = refl
  tail_lem s ss value (err e) = refl
  tail_lem s ss value (ok vs) = refl

  round_lem :
      (s : EnumStatement) (ss : List EnumStatement) (value : ℕ) (next : Result ℕ)
      → ((n : ℕ)
          → enum_data checks ss n ≡ (number_variants checks ss n >>= λ vs. ok (covered ss vs)))
      → (next >>= λ n. enum_data checks ss n >>= λ rest. ok (
          if is_backwards_compatible s.options
          then rest
          else ("['" ^^ s.id ^^ "', " ^^ show_u32 value ^^ "]") ∷ rest))
        ≡ ((next >>= λ n. number_variants checks ss n >>= λ rest.
              ok (record { id = s.id; value = value } ∷ rest))
            >>= λ vs. ok (covered (s ∷ ss) vs))
  round_lem s ss value too_deep ih = refl
  round_lem s ss value panicked ih = refl
  round_lem s ss value (err e) ih = refl
  round_lem s ss value (ok n) ih = rw (ih n) (tail_lem s ss value (number_variants checks ss n))

  -- The text under the checksum of an enum lists, with their names and values, the variants that
  -- are generated, less those marked as backwards-compatible; an overflow of the values ends both
  -- loops alike.
  pub enum_data-number_variants :
      (ss : List EnumStatement) (n : ℕ)
      → enum_data checks ss n ≡ (number_variants checks ss n >>= λ vs. ok (covered ss vs))
  unfolding enum_data number_variants
  enum_data-number_variants [] n = unfold covered in refl
  enum_data-number_variants (s ∷ ss) n =
      round_lem s ss (variant_value s.value n) (next_u32 checks (variant_value s.value n))
        (enum_data-number_variants ss)
