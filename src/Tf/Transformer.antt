-- ===== src/Tf/Transformer.antt =====
-- pkg/providers/tf/wrapper/tfimporttransform.go: how the text that `terraform show` prints after an import
-- becomes the main definition of a workspace.
pub mod Laws
use Prim.Native.String.{◌++◌ as append}
use cloud_service_broker.Prelude.{
  ℕ, zero, suc, ◌+◌, String, Bool, true, false, not, ◌||◌, Option, none, some, List, [], ◌∷◌, ◌++◌,
  ◌==◌, nat_eq, leb, contains, if◌then◌else◌,
}
use cloud_service_broker.Prelude.Int.{ℤ, pos, negsuc}
use cloud_service_broker.Prelude.StringMap.{StringMap, insert}
use cloud_service_broker.Outcome.{Result, ok, err, ◌>>=◌, plain}
use cloud_service_broker.Tf.Workspace.{ParameterMapping, TfTransformer}

-- The calls of bufio, strings and regexp.
pub record Texts : Type 0 where
  pub lines : String → List String
  -- `strings.Count` of `{` and of `}`
  pub opens : String → ℕ
  pub closes : String → ℕ
  -- the submatches of `resource`, and the first of `value` and of `block`
  pub match_resource : String → Option (String × String)
  pub match_value : String → Option String
  pub match_block : String → Option String
  -- what stands before and behind the last dot
  pub split_last : String → Option (String × String)
  -- whether `reBlock` matches, and the submatch of the first match of `reSimple`
  pub finds_block : String → String → Bool
  pub find_simple : String → String → Option String
  -- the rest behind a prefix that there is
  pub strip_prefix : String → String → Option String
  -- `ReplaceAllString` of the matches for a variable
  pub replace_block : String → String → String → String
  pub replace_array : String → String → String → String
  pub replace_simple : String → String → String → String

unfoldable pub minus : ℕ → ℕ → ℤ
minus zero zero = pos 0
minus (suc a) zero = pos (suc a)
minus zero (suc b) = negsuc b
minus (suc a) (suc b) = minus a b

-- The sum with the first number, less the second.
unfoldable pub shift : ℤ → ℕ → ℕ → ℤ
unfolding minus
shift (pos n) a b = minus (n + a) b
shift (negsuc n) a b = minus a (suc (n + b))

unfoldable pub is_below : ℤ → ℕ → Bool
is_below (pos n) k = not (leb k n)
is_below (negsuc n) k = true

-- The slot of `blockStack`, which has 64.
unfoldable pub slot : ℤ → Result ℕ
slot (pos n) = if leb 64 n then err (plain "index out of range") else ok n
slot (negsuc n) = err (plain "index out of range")

abbrev dotted : String → String → String
dotted a b = append a (append "." b)

unfoldable pub at_slot : ℕ → String → (ℕ → String) → ℕ → String
at_slot i s stack j = if nat_eq i j then s else stack j

abbrev pub unlines : List String → String
unlines [] = ""
unlines (l ∷ ls) = append l (append "\n" (unlines ls))

-- The loop's variables.
pub record Scan : Type 0 where
  pub depth : ℤ
  pub block_stack : ℕ → String
  pub skip_block_depth : ℕ

abbrev pub start : Scan
start = record { depth = pos 0; block_stack = λ _. ""; skip_block_depth = 0 }

module _ (x : Texts) where
  unfoldable pub brace_count : String → ℤ → ℤ
  unfolding shift
  brace_count str count = shift count (x.opens str) (x.closes str)

  -- The stack is not read where there is nothing to remove.
  unfoldable pub is_removed : List String → String → Scan → Result Bool
  unfolding slot
  is_removed [] name c = ok false
  is_removed (removal ∷ removals) name c =
      let rest = is_removed removals name c in
      slot c.depth >>= λ i. if dotted (c.block_stack i) name == removal then ok true else rest

  abbrev pub entered : String → Scan → Scan
  entered line c =
      let depth = brace_count line c.depth in
      record c {
        depth = depth;
        skip_block_depth = if is_below depth c.skip_block_depth then 0 else c.skip_block_depth;
      }

  abbrev pub is_skipping : Scan → Bool
  is_skipping c = not (nat_eq c.skip_block_depth 0 || is_below c.depth c.skip_block_depth)

  unfoldable pub on_resource : Bool → String × String → Scan → Result (Bool × Scan)
  unfolding slot at_slot
  on_resource skipping (a, b) c = do
    i ← slot c.depth
    ok (skipping, record c { block_stack = at_slot i (dotted a b) c.block_stack })

  unfoldable pub on_value : List String → Bool → String → Scan → Result (Bool × Scan)
  unfolding is_removed
  on_value removals skipping name c = do
    removed ← is_removed removals name c
    ok (removed || skipping, c)

  unfoldable pub in_block : List String → Bool → String → ℕ → Scan → Bool × Scan
  unfolding at_slot
  in_block removals skipping block i c =
      let c' = record c { block_stack = at_slot i block c.block_stack } in
      if contains block removals then (true, record c' { skip_block_depth = i }) else (skipping, c')

  unfoldable pub on_block : List String → Bool → String → Scan → Result (Bool × Scan)
  unfolding slot in_block shift
  on_block removals skipping name c = do
    outer ← slot (shift c.depth 0 1)
    i ← slot c.depth
    ok (in_block removals skipping (dotted (c.block_stack outer) name) i c)

  -- Whether the line is left out.
  unfoldable pub clean_line : TfTransformer → String → Scan → Result (Bool × Scan)
  unfolding on_resource on_value on_block
  clean_line ttf line c =
      let skipping = is_skipping c in
      let c' = entered line c in
      elim (x.match_resource line) [
        | some names ↦ on_resource skipping names c'
        | none ↦ elim (x.match_value line) [
          | some name ↦ on_value ttf.parameters_to_remove skipping name c'
          | none ↦ elim (x.match_block line) [
            | some name ↦ on_block ttf.parameters_to_remove skipping name c'
            | none ↦ ok (skipping, c')
          ]
        ]
      ]

  unfoldable pub clean_lines : TfTransformer → List String → Scan → Result (List String)
  unfolding clean_line
  clean_lines ttf [] c = ok []
  clean_lines ttf (line ∷ rest) c = do
    (skip_line, c') ← clean_line ttf line c
    kept ← clean_lines ttf rest c'
    ok (if skip_line then kept else line ∷ kept)

  unfoldable pub clean_tf : TfTransformer → String → Result String
  unfolding clean_lines
  clean_tf ttf tf = do kept ← clean_lines ttf (x.lines tf) start; ok (unlines kept)

  -- The parameters of this block. A variable without a dot panics; here it is an error.
  unfoldable pub additions : List ParameterMapping → String → Result (List String)
  additions [] block = ok []
  additions (addition ∷ rest) block = elim (x.split_last addition.tf_variable) [
    | none ↦ err (plain "slice bounds out of range")
    | some (prefix, name) ↦ elim (additions rest block) [
      | err e ↦ err e
      | ok found ↦ ok (
          if prefix == block
          then append name (append " = " addition.parameter_name) ∷ found
          else found)
    ]
  ]

  -- The slot of the stack that the loop compares has just been written.
  unfoldable pub add_lines : TfTransformer → List String → ℤ → Result (List String)
  unfolding additions slot brace_count
  add_lines ttf [] depth = ok []
  add_lines ttf (line ∷ rest) depth =
      let depth' = brace_count line depth in
      elim (x.match_resource line) [
        | none ↦ elim (add_lines ttf rest depth') [ err e ↦ err e | ok out ↦ ok (line ∷ out) ]
        | some (a, b) ↦ do
          i ← slot depth'
          added ← additions ttf.parameters_to_add (dotted a b)
          out ← add_lines ttf rest depth'
          ok (line ∷ (added ++ out))
      ]

  unfoldable pub add_parameters_in_tf : TfTransformer → String → Result String
  unfolding add_lines
  add_parameters_in_tf ttf tf = do out ← add_lines ttf (x.lines tf) (pos 0); ok (unlines out)

  captured : ParameterMapping → String → StringMap String → StringMap String
  captured mapping value values = elim (x.strip_prefix "var." mapping.parameter_name) [
    | some name ↦ insert name value values
    | none ↦ elim (x.strip_prefix "local." mapping.parameter_name) [
      | some name ↦ insert name value values
      | none ↦ values
    ]
  ]

  capture_from : List ParameterMapping → String → StringMap String → StringMap String
  unfolding captured
  capture_from [] tf values = values
  capture_from (mapping ∷ mappings) tf values =
      let rest = capture_from mappings tf in
      if x.finds_block mapping.tf_variable tf
      then rest values
      else (elim (x.find_simple mapping.tf_variable tf) [
        | none ↦ rest values
        | some value ↦ rest (captured mapping value values)
      ])

  unfoldable pub capture_parameter_values : TfTransformer → String → StringMap String
  unfolding capture_from
  capture_parameter_values ttf tf = capture_from ttf.parameter_mappings tf []

  replace_from : List ParameterMapping → String → String
  replace_from [] tf = tf
  replace_from (m ∷ ms) tf =
      let by = append m.tf_variable (append " = " m.parameter_name) in
      replace_from ms (
        x.replace_simple m.tf_variable by
          (x.replace_array m.tf_variable by (x.replace_block m.tf_variable by tf)))

  unfoldable pub replace_parameters : TfTransformer → String → String
  unfolding replace_from
  replace_parameters ttf tf = replace_from ttf.parameter_mappings tf

  unfoldable pub replace_parameters_in_tf : TfTransformer → String → String × StringMap String
  replace_parameters_in_tf ttf tf = (replace_parameters ttf tf, capture_parameter_values ttf tf)
