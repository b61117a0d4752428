-- ===== src/Capability/Classes.antt =====
-- What the classification of an operation tells the registry of providers.
use ag_infer.Prelude.{
  ◌≡◌, refl, String, Bool, true, false, not, Bool-cases, none, List, inl, inr, ok, Result, >>=-then,
  ok-injective, ◌++◌, all_of, str_eq, ◌&&◌, list_eq, drop, if◌then◌else◌, subst, [], ◌∷◌,
}
use ag_infer.Schedule.{TensorSignature, Attribute, item}
use ag_infer.Capability.{is_runtime_kind}
use ag_infer.Inventory.{
  LoweringKind, RequirementStatus, Classified, is_one_of, meta_opcodes, memory_opcodes, aot_opcodes,
  ints_of, same_dims, classify_conv2d, classify, needs, blocked_by,
}

-- What a classification may be, for the tensors of an operation.
pub data IsClassified (types : List TensorSignature) : Classified → Type 0 where
  compile_time :
      IsClassified types (record {
        kind = LoweringKind.builtin_meta;
        status = RequirementStatus.meta;
        blocker = none;
      })
  needed :
      (kind : LoweringKind)
      → is_runtime_kind kind ≡ true
      → all_of (λ (t : TensorSignature). str_eq t.device "cuda") types ≡ true
      → IsClassified types (needs kind)
  refused : (reason : String) → IsClassified types (blocked_by reason)

not-false : (b : Bool) → not b ≡ false → b ≡ true
not-false true e = refl
not-false false e = cc

module _ (types : List TensorSignature) where
  abbrev Good : Result Classified → Type 0
  Good r = (c : Classified) → r ≡ ok c → IsClassified types c

  branch :
      (b : Bool) (x y : Result Classified)
      → (b ≡ true → Good x)
      → (b ≡ false → Good y)
      → Good (if b then x else y)
  branch true x y f g = f refl
  branch false x y f g = g refl

  given : (c : Classified) → IsClassified types c → Good (ok c)
  given c h d e = subst (IsClassified types) (ok-injective e) h

  conv2d-IsClassified :
      (attributes : List (String × Attribute)) (input_types : List TensorSignature)
      → all_of (λ (t : TensorSignature). str_eq t.device "cuda") types ≡ true
      → Good (classify_conv2d attributes input_types)
  unfolding classify_conv2d
  conv2d-IsClassified attributes input_types cuda c e =
      >>=-then (item input_types 1) _ e λ weight _ e1.
        >>=-then (ints_of attributes "pads") _ e1 λ pads _ e2.
          >>=-then (ints_of attributes "strides") _ e2 λ strides _ e3.
            elim (Bool-cases
              (list_eq pads (0 ∷ 0 ∷ 0 ∷ 0 ∷ []) && same_dims (drop 2 weight.shape) strides)) [
                | inl t ↦
                    given (needs LoweringKind.gemm) (needed LoweringKind.gemm refl cuda) c
                      (rw t at e3)
                | inr n ↦ given (blocked_by _) (refused _) c (rw n at e3)
              ]

-- A classification is one of three: compile-time, where no provider is asked; required, with a kind that
-- the registry of providers serves, where all tensors of the operation are on CUDA; or blocked, with a
-- reason.
pub classify-IsClassified :
    (opcode : String) (attributes : List (String × Attribute))
    (input_types output_types : List TensorSignature) (c : Classified)
    → classify opcode attributes input_types output_types ≡ ok c
    → IsClassified (input_types ++ output_types) c
unfolding classify
classify-IsClassified opcode attributes input_types output_types =
    let types = input_types ++ output_types in
    let device = all_of (λ (t : TensorSignature). str_eq t.device "cuda") types in
    branch types (is_one_of opcode meta_opcodes) _ _ (λ _. given types _ compile_time)
      λ _.
        branch types (not device) _ _ (λ _. given types _ (refused _))
          λ on_cuda.
            let cuda : device ≡ true = not-false device on_cuda in
            let served = λ (kind : LoweringKind) (s : is_runtime_kind kind ≡ true).
              given types (needs kind) (needed kind s cuda) in
            branch types (is_one_of opcode memory_opcodes) _ _
              (λ _. served LoweringKind.memory refl)
              λ _.
                branch types (is_one_of opcode ("linear" ∷ "matmul" ∷ [])) _ _
                  (λ _. served LoweringKind.gemm refl)
                  λ _.
                    branch types (str_eq opcode "scaled_dot_product_attention") _ _
                      (λ _. served LoweringKind.attention refl)
                      λ _.
                        branch types (str_eq opcode "conv2d") _ _
                          (λ _. conv2d-IsClassified types attributes input_types cuda)
                          λ _.
                            branch types (is_one_of opcode aot_opcodes) _ _
                              (λ _. served LoweringKind.aot_cuda refl)
                              (λ _. given types _ (refused _))
