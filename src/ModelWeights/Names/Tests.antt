-- ===== src/ModelWeights/Names/Tests.antt =====
-- Names of tensors, and the theorem at one.
use waldo.Base.{◌≡◌, refl, none, some, ◌↔◌}
use waldo.Base.Bytes.{codes}
use waldo.ModelWeights.Names.RoundTrip.{hugging_face_name-waldo_name}
use waldo.ModelWeights.Names.{hugging_face_name, waldo_name, waldo_layer, match_layer}

gate :
    hugging_face_name (codes "layers.12.feed_forward.gate.weight")
    ≡ some (codes "model.layers.12.mlp.gate_proj.weight")
unfolding hugging_face_name waldo.Base.Bytes.bytes_eq
gate = refl

no_layer : waldo_name (codes "model.layers.x.mlp.gate_proj.weight") ≡ none
unfolding waldo_name waldo.Base.Bytes.bytes_eq
no_layer = refl

no_tail : waldo_layer (codes "layers.3.") ≡ none
unfolding match_layer
no_tail = refl

layer : waldo_layer (codes "layers.03.bias") ≡ some (codes "03", codes "bias")
unfolding match_layer
layer = refl

hugging_face_name-waldo_name_example :
    (hugging_face_name (codes "norm.weight") ≡ some (codes "model.norm.weight"))
    ↔ (waldo_name (codes "model.norm.weight") ≡ some (codes "norm.weight"))
hugging_face_name-waldo_name_example =
    hugging_face_name-waldo_name (codes "norm.weight") (codes "model.norm.weight")
