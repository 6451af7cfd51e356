-- ===== src/Tf/Transformer/Laws.antt =====
-- What the rewriting of an imported text keeps.
use cloud_service_broker.Prelude.{
  ◌≡◌, ◌≢◌, ◌⊎◌, refl, String, Bool, true, false, List, [], ◌∷◌, ◌++◌, arith, inl, inr,
  Option-cases, Bool-cases, if◌then◌else◌,
}
use cloud_service_broker.Prelude.Int.{ℤ, pos}
use cloud_service_broker.Outcome.{Result, ok, Result-cases}
use cloud_service_broker.Tf.Workspace.{TfTransformer}
use cloud_service_broker.Tf.Transformer.{
  Texts, Scan, start, unlines, clean_line, clean_lines, clean_tf, add_lines, additions,
  add_parameters_in_tf, slot, brace_count, dotted, entered, is_skipping, on_resource, on_value,
  on_block, in_block, is_removed, is_below, shift,
}

-- The first list is the second with lines left out.
pub data IsSublist : List String → List String → Type 0 where
  done : IsSublist [] []
  kept : (l : String) (as' bs : List String) → IsSublist as' bs → IsSublist (l ∷ as') (l ∷ bs)
  left_out : (l : String) (as' bs : List String) → IsSublist as' bs → IsSublist as' (l ∷ bs)

after_inserted : (added as' bs : List String) → IsSublist as' bs → IsSublist as' (added ++ bs)
after_inserted [] as' bs h = h
after_inserted (l ∷ added) as' bs h = left_out l as' (added ++ bs) (after_inserted added as' bs h)

List-cases : (ls : List String) → (ls ≡ []) ⊎ (ls ≢ [])
List-cases [] = inl refl
List-cases (l ∷ ls) = inr (λ h. ground (arith, h))

module _ (x : Texts) (ttf : TfTransformer) where
  clean_lines_inverse :
      (line : String) (rest : List String) (c : Scan) (out : List String)
      → clean_lines x ttf (line ∷ rest) c ≡ ok out
      → (skip_line : Bool) × (c' : Scan) × (ks : List String) × (clean_line x ttf line c
          ≡ ok (skip_line, c'))
        × (clean_lines x ttf rest c' ≡ ok ks)
        × (out ≡ (if skip_line then ks else line ∷ ks))
  unfolding clean_lines
  clean_lines_inverse line rest c out h = elim (Result-cases (clean_line x ttf line c)) [
    | inr (e, failed) ↦ absurd (ground (arith, h, failed))
    | inl ((skip_line, c'), read) ↦ elim (Result-cases (clean_lines x ttf rest c')) [
      | inr (e, failed) ↦ absurd (ground (arith, h, read, failed))
      | inl (ks, cleaned) ↦ (skip_line, c', ks, read, cleaned, ground (arith, h, read, cleaned))
    ]
  ]

  kept_or_left :
      (skip_line : Bool) (line : String) (ks rest : List String)
      → IsSublist ks rest
      → IsSublist (if skip_line then ks else line ∷ ks) (line ∷ rest)
  kept_or_left true line ks rest h = left_out line ks rest h
  kept_or_left false line ks rest h = kept line ks rest h

  clean_lines-IsSublist :
      (ls : List String) (c : Scan) (out : List String)
      → clean_lines x ttf ls c ≡ ok out
      → IsSublist out ls
  unfolding clean_lines
  clean_lines-IsSublist [] c out h = let same : [] ≡ out = ground (arith, h) in rw (← same) done
  clean_lines-IsSublist (line ∷ rest) c out h =
      let (skip_line, c', ks, _, cleaned, same) = clean_lines_inverse line rest c out h in
      rw same (kept_or_left skip_line line ks rest (clean_lines-IsSublist rest c' ks cleaned))

  -- Nothing has been skipped, and nothing will be.
  abbrev IsIdle : Result (Bool × Scan) → Type 0
  IsIdle r = (b : Bool) (c : Scan) → r ≡ ok (b, c) → (b ≡ false) × (c.skip_block_depth ≡ 0)

  on_resource-IsIdle :
      (names : String × String) (c : Scan)
      → c.skip_block_depth ≡ 0
      → IsIdle (on_resource x false names c)
  unfolding on_resource
  on_resource-IsIdle names c idle b c' h = elim (Result-cases (slot c.depth)) [
    | inr (e, failed) ↦ absurd (ground (arith, h, failed))
    | inl (i, found) ↦ ground (arith, h, found, idle)
  ]

  on_value-IsIdle :
      (name : String) (c : Scan) → c.skip_block_depth ≡ 0 → IsIdle (on_value x [] false name c)
  unfolding on_value is_removed
  on_value-IsIdle name c idle b c' h = ground (arith, h, idle)

  on_block-IsIdle :
      (name : String) (c : Scan) → c.skip_block_depth ≡ 0 → IsIdle (on_block x [] false name c)
  unfolding on_block in_block
  on_block-IsIdle name c idle b c' h = elim (Result-cases (slot (shift c.depth 0 1))) [
    | inr (e, failed) ↦ absurd (ground (arith, h, failed))
    | inl (o, outer) ↦ elim (Result-cases (slot c.depth)) [
      | inr (e, failed) ↦ absurd (ground (arith, h, outer, failed))
      | inl (i, found) ↦ ground (arith, h, outer, found, idle)
    ]
  ]

  entered_idle :
      (line : String) (c : Scan) → c.skip_block_depth ≡ 0 → (entered x line c).skip_block_depth ≡ 0
  entered_idle line c idle =
      elim (Bool-cases (is_below (brace_count x line c.depth) c.skip_block_depth)) [
        | inl below ↦ rw below refl
        | inr above ↦ rw above idle
      ]

  -- With nothing to remove, a line is not left out.
  clean_line-IsIdle :
      (line : String) (c : Scan)
      → ttf.parameters_to_remove ≡ []
      → c.skip_block_depth ≡ 0
      → IsIdle (clean_line x ttf line c)
  unfolding clean_line
  clean_line-IsIdle line c whole idle b c' h =
      let on : is_skipping x c ≡ false = ground (arith, idle) in
      let next = entered_idle line c idle in
      elim (Option-cases (x.match_resource line)) [
        | inr (names, r) ↦
            on_resource-IsIdle names (entered x line c) next b c' (ground (arith, h, r, on))
        | inl no_resource ↦ elim (Option-cases (x.match_value line)) [
          | inr (name, v) ↦
              on_value-IsIdle name (entered x line c) next b c'
                (ground (arith, h, no_resource, v, on, whole))
          | inl no_value ↦ elim (Option-cases (x.match_block line)) [
            | inr (name, k) ↦
                on_block-IsIdle name (entered x line c) next b c'
                  (ground (arith, h, no_resource, no_value, k, on, whole))
            | inl no_block ↦ ground (arith, h, no_resource, no_value, no_block, on, next)
          ]
        ]
      ]

  clean_lines_all :
      (ls : List String) (c : Scan) (out : List String)
      → ttf.parameters_to_remove ≡ []
      → c.skip_block_depth ≡ 0
      → clean_lines x ttf ls c ≡ ok out
      → out ≡ ls
  unfolding clean_lines
  clean_lines_all [] c out whole idle h = ground (arith, h)
  clean_lines_all (line ∷ rest) c out whole idle h =
      let (skip_line, c', ks, read, cleaned, same) = clean_lines_inverse line rest c out h in
      let (shown, idle') = clean_line-IsIdle line c whole idle skip_line c' read in
      ground (arith, same, shown, clean_lines_all rest c' ks whole idle' cleaned)

  -- Cleaning, if it returns, leaves out lines of the text and changes no other, nor their order; with no
  -- parameters to remove it leaves out none.
  pub clean_tf-IsSublist :
      (tf out : String)
      → clean_tf x ttf tf ≡ ok out
      → (ls : List String) × (out ≡ unlines ls)
        × IsSublist ls (x.lines tf)
        × ((ttf.parameters_to_remove ≢ []) ⊎ (ls ≡ x.lines tf))
  unfolding clean_tf
  clean_tf-IsSublist tf out h = elim (Result-cases (clean_lines x ttf (x.lines tf) start)) [
    | inr (e, failed) ↦ absurd (ground (arith, h, failed))
    | inl (ls, cleaned) ↦ (
      ls,
      ground (arith, h, cleaned),
      clean_lines-IsSublist (x.lines tf) start ls cleaned,
      (elim (List-cases ttf.parameters_to_remove) [
        | inl whole ↦ inr (clean_lines_all (x.lines tf) start ls whole refl cleaned)
        | inr some_removed ↦ inl some_removed
      ]),
    )
  ]

  add_lines_inverse :
      (line : String) (rest : List String) (depth : ℤ) (out : List String)
      → add_lines x ttf (line ∷ rest) depth ≡ ok out
      → (added tail' : List String) × (add_lines x ttf rest (brace_count x line depth) ≡ ok tail')
        × (out ≡ line ∷ (added ++ tail'))
  unfolding add_lines
  add_lines_inverse line rest depth out h =
      let depth' = brace_count x line depth in
      elim (Option-cases (x.match_resource line)) [
        | inl no_resource ↦ elim (Result-cases (add_lines x ttf rest depth')) [
          | inr (e, failed) ↦ absurd (ground (arith, h, no_resource, failed))
          | inl (ts, found) ↦ ([], ts, found, ground (arith, h, no_resource, found))
        ]
        | inr ((a, b), r) ↦ elim (Result-cases (slot depth')) [
          | inr (e, failed) ↦ absurd (ground (arith, h, r, failed))
          | inl (i, s) ↦ elim (Result-cases (additions x ttf.parameters_to_add (dotted a b))) [
            | inr (e, failed) ↦ absurd (ground (arith, h, r, s, failed))
            | inl (added, new) ↦ elim (Result-cases (add_lines x ttf rest depth')) [
              | inr (e, failed) ↦ absurd (ground (arith, h, r, s, new, failed))
              | inl (ts, found) ↦ (added, ts, found, ground (arith, h, r, s, new, found))
            ]
          ]
        ]
      ]

  add_lines-IsSublist :
      (ls : List String) (depth : ℤ) (out : List String)
      → add_lines x ttf ls depth ≡ ok out
      → IsSublist ls out
  unfolding add_lines
  add_lines-IsSublist [] depth out h = let same : [] ≡ out = ground (arith, h) in rw (← same) done
  add_lines-IsSublist (line ∷ rest) depth out h =
      let (added, ts, found, same) = add_lines_inverse line rest depth out h in
      rw same (
        kept line rest (added ++ ts) (
          after_inserted added rest ts
            (add_lines-IsSublist rest (brace_count x line depth) ts found)))

  -- The addition of parameters, if it returns, keeps every line and their order.
  pub add_parameters_in_tf-IsSublist :
      (tf out : String)
      → add_parameters_in_tf x ttf tf ≡ ok out
      → (ls : List String) × (out ≡ unlines ls) × IsSublist (x.lines tf) ls
  unfolding add_parameters_in_tf
  add_parameters_in_tf-IsSublist tf out h =
      elim (Result-cases (add_lines x ttf (x.lines tf) (pos 0))) [
        | inr (e, failed) ↦ absurd (ground (arith, h, failed))
        | inl (ls, added) ↦
            (ls, ground (arith, h, added), add_lines-IsSublist (x.lines tf) (pos 0) ls added)
      ]
