-- ===== src/ApiGen/ImportLaws.antt =====
-- What the statements of an imported file change in parser.rs.
use vpp_plugin_rs.ApiGen.Statements.{
  process_typedef, length_var, is_some, crc_for_fields, validate_vla, process_all, register,
  process_statements, process_statement,
}
use vpp_plugin_rs.ApiGen.Syntax.{Flag, Field, ok, TypeEntry, Statement, ApiParser}
use vpp_plugin_rs.ApiGen.Crc.{
  enum_variants_from_block_statements, crc_data_for_enum_block_statements, statement_crc_data, Crc,
}
use vpp_plugin_rs.Prelude.{
  inr, inl, Bool-cases, ℕ, ◌≡◌, ap, ◌∙◌, sym, Bool, true, false, Option, none, some, List, [], ◌∷◌,
}
use vpp_plugin_rs.ApiGen.Table.{lookup}
use vpp_plugin_rs.ApiGen.ServiceLaws.{ok-inj, unbind}
use Prim.Native.String.{String}

-- The parser without its table of types.
unfoldable pub forget_types : {Hasher : Type 0} → ApiParser Hasher → ApiParser Hasher
forget_types p = record p { global_types_by_name = [] }

module _ {Hasher : Type 0} (checks : Bool) (c : Crc Hasher) (file : String) where
  process_typedef_lem :
      (p q : ApiParser Hasher) (f : Field) (flags : List Flag) (var : Option String)
      (entry : Option (String × TypeEntry Hasher))
      → process_typedef checks c p (some file) f flags var ≡ ok (q, entry)
      → q ≡ p
  process_typedef_lem p q f flags none entry e = ap (λ r. r.0) (sym (ok-inj e))
  process_typedef_lem p q f flags (some v) entry e = cc

  process_statement_lem :
      (p q : ApiParser Hasher) (s : Statement) (entry : Option (String × TypeEntry Hasher))
      → process_statement checks c p (some file) s ≡ ok (q, entry)
      → q ≡ p
  unfolding process_statement
  process_statement_lem p q (Statement.define name options fields flags comment) entry e =
      let (vla, e₁, valid) = unbind _ (validate_vla checks c p name fields false) e in
      ap (λ r. r.0) (sym (ok-inj e₁))
  process_statement_lem p q (Statement.typedef_block name options fields flags) entry e =
      let (vla, e₁, valid) = unbind _ (validate_vla checks c p name fields false) e in
      let (crc, e₂, summed) = unbind _ (crc_for_fields checks c p fields) e₁ in
      ap (λ r. r.0) (sym (ok-inj e₂))
  process_statement_lem p q (Statement.typedef field flags) entry e =
      process_typedef_lem p q field flags (length_var field.size) entry e
  process_statement_lem p q (Statement.union name options fields comment) entry e =
      let (vla, e₁, valid) = unbind _ (validate_vla checks c p name fields true) e in
      let (crc, e₂, summed) = unbind _ (crc_for_fields checks c p fields) e₁ in
      ap (λ r. r.0) (sym (ok-inj e₂))
  process_statement_lem p q (Statement.enum name size block) entry e =
      let (text, e₁, shown) = unbind _ (crc_data_for_enum_block_statements checks block) e in
      let (variants, e₂, numbered) =
        unbind _ (enum_variants_from_block_statements checks block) e₁ in
      ap (λ r. r.0) (sym (ok-inj e₂))
  process_statement_lem p q (Statement.enum_flag name size block) entry e =
      let (text, e₁, shown) = unbind _ (crc_data_for_enum_block_statements checks block) e in
      let (variants, e₂, numbered) =
        unbind _ (enum_variants_from_block_statements checks block) e₁ in
      ap (λ r. r.0) (sym (ok-inj e₂))
  process_statement_lem p q (Statement.import imported) entry e = ap (λ r. r.0) (sym (ok-inj e))
  process_statement_lem p q (Statement.option o) entry e = ap (λ r. r.0) (sym (ok-inj e))
  process_statement_lem p q (Statement.service services) entry e = ap (λ r. r.0) (sym (ok-inj e))

  register_lem :
      (p q : ApiParser Hasher) (entry : Option (String × TypeEntry Hasher))
      → register checks c p entry ≡ ok q
      → forget_types q ≡ forget_types p
  unfolding forget_types
  register_lem p q none e = ap forget_types (sym (ok-inj e))
  register_lem p q (some (name, entry)) e =
      elim (Bool-cases (is_some (lookup name p.global_types_by_name))) [
        | inl b ↦ absurd (cc (rw b at e))
        | inr b ↦ ap forget_types (sym (ok-inj (rw b at e)))
      ]

  process_all_lem :
      (p q : ApiParser Hasher) (h h' : Hasher) (ss : List Statement)
      → process_all checks c p h (some file) ss ≡ ok (q, h')
      → forget_types q ≡ forget_types p
  unfolding process_all
  process_all_lem p q h h' [] e = ap (λ r. forget_types r.0) (sym (ok-inj e))
  process_all_lem p q h h' (s ∷ ss) e =
      let (text, e₁, shown) = unbind _ (statement_crc_data checks s) e in
      let ((p₁, entry), e₂, done) = unbind _ (process_statement checks c p (some file) s) e₁ in
      let (p₂, e₃, registered) = unbind _ (register checks c p₁ entry) e₂ in
      process_all_lem p₂ q _ h' ss e₃
      ∙ (register_lem p₁ p₂ entry registered
          ∙ ap forget_types (process_statement_lem p p₁ s entry done))

  -- The statements of an imported file register types and change nothing else of the parser.
  pub process_statements-forget_types :
      (p q : ApiParser Hasher) (statements : List Statement) (crc : ℕ)
      → process_statements checks c p statements (some file) ≡ ok (q, crc)
      → forget_types q ≡ forget_types p
  unfolding process_statements
  process_statements-forget_types p q statements crc e =
      let ((p₁, h), e₁, done) = unbind _ (process_all checks c p c.new (some file) statements) e in
      ap (λ r. forget_types r.0) (sym (ok-inj e₁)) ∙ process_all_lem p p₁ c.new h statements done
