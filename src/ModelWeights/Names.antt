-- ===== src/ModelWeights/Names.antt =====
-- internal/modelweights/names.go: the names of tensors in WALDO's files and in those of Hugging Face.
pub mod RoundTrip
mod Tests
use waldo.Base.{
  ℕ, zero, suc, Bool, true, false, not, ◌&&◌, Option, none, some, List, [], ◌∷◌, ◌++◌, any, length,
  drop, leb, ◌==◌, if◌then◌else◌,
}
use waldo.Base.Bytes.{Bytes, codes, bytes_eq}
use waldo.Base.Strings.{has_prefix, join}

pub is_digit : ℕ → Bool
is_digit c = leb b'0' c && leb c b'9'

-- `[0-9]+`, and what follows.
pub take_digits : Bytes → Bytes × Bytes
unfolding is_digit
take_digits [] = ([], [])
take_digits (c ∷ text) =
    let later = take_digits text in if is_digit c then (c ∷ later.0, later.1) else ([], c ∷ text)

abbrev pub is_some : Bytes → Bool
is_some [] = false
is_some (c ∷ text) = true

-- `.+`: no line ends in it.
pub is_tail : Bytes → Bool
is_tail text = is_some text && not (any (λ c. c == 10) text)

abbrev pub after_digits : Bytes × Bytes → Option (Bytes × Bytes)
after_digits (digits, []) = none
after_digits (digits, c ∷ tail) =
    if is_some digits && c == b'.' && is_tail tail then some (digits, tail) else none

-- `FindStringSubmatch` of `waldoLayerTensor` and `huggingFaceLayerTensor`, which differ in what
-- stands before the number.
pub match_layer : Bytes → Bytes → Option (Bytes × Bytes)
unfolding take_digits has_prefix is_tail
match_layer start name =
    if has_prefix name start then after_digits (take_digits (drop (length start) name)) else none

abbrev pub waldo_start : Bytes
waldo_start = codes "layers."

abbrev pub hugging_face_start : Bytes
hugging_face_start = codes "model.layers."

-- `waldoToHuggingFace`
abbrev pub waldo_to_hugging_face : List (Bytes × Bytes)
waldo_to_hugging_face =
    (codes "attention.q_proj.weight", codes "self_attn.q_proj.weight")
    ∷ (codes "attention.k_proj.weight", codes "self_attn.k_proj.weight")
    ∷ (codes "attention.v_proj.weight", codes "self_attn.v_proj.weight")
    ∷ (codes "attention.o_proj.weight", codes "self_attn.o_proj.weight")
    ∷ (codes "attention_norm.weight", codes "input_layernorm.weight")
    ∷ (codes "feed_forward.gate.weight", codes "mlp.gate_proj.weight")
    ∷ (codes "feed_forward.up.weight", codes "mlp.up_proj.weight")
    ∷ (codes "feed_forward.down.weight", codes "mlp.down_proj.weight")
    ∷ (codes "ffn_norm.weight", codes "post_attention_layernorm.weight")
    ∷ []

-- The names outside of the layers.
abbrev pub other_names : List (Bytes × Bytes)
other_names =
    (codes "embedding.weight", codes "model.embed_tokens.weight")
    ∷ (codes "norm.weight", codes "model.norm.weight")
    ∷ (codes "output.weight", codes "lm_head.weight")
    ∷ []

pub find_value : List (Bytes × Bytes) → Bytes → Option Bytes
find_value [] key = none
find_value ((k, v) ∷ pairs) key =
    let later = find_value pairs key in if bytes_eq key k then some v else later

pub find_key : List (Bytes × Bytes) → Bytes → Option Bytes
find_key [] value = none
find_key ((k, v) ∷ pairs) value =
    let later = find_key pairs value in if bytes_eq value v then some k else later

-- `strings.Join([]string{name, match[1], tail}, ".")`
abbrev pub layer_name : Bytes → Bytes → Bytes → Bytes
layer_name name digits tail = name ++ (codes "." ++ (digits ++ (codes "." ++ tail)))

abbrev pub renamed_layer : Bytes → (Bytes → Option Bytes) → Option (Bytes × Bytes) → Option Bytes
renamed_layer name tail_of none = none
renamed_layer name tail_of (some (digits, tail)) = elim (tail_of tail) [
  | none ↦ none
  | some found ↦ some (layer_name name digits found)
]

-- `HuggingFaceName`, and none for its error.
pub hugging_face_name : Bytes → Option Bytes
unfolding find_value match_layer
hugging_face_name name = elim (find_value other_names name) [
  | some found ↦ some found
  | none ↦
      renamed_layer (codes "model.layers") (find_value waldo_to_hugging_face)
        (match_layer waldo_start name)
]

-- `WALDOName`, and none for its error.
pub waldo_name : Bytes → Option Bytes
unfolding find_key match_layer
waldo_name name = elim (find_key other_names name) [
  | some found ↦ some found
  | none ↦
      renamed_layer (codes "layers") (find_key waldo_to_hugging_face)
        (match_layer hugging_face_start name)
]

-- `WALDOLayer`
abbrev pub waldo_layer : Bytes → Option (Bytes × Bytes)
waldo_layer name = match_layer waldo_start name
