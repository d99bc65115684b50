-- ===== src/Training/Epochs/Tests.antt =====
-- The passes over small records, and the theorem at them.
use waldo.Base.{ℕ, ◌≡◌, refl, false, [], ◌∷◌, List, arith}
use waldo.Base.Results.{ok, err}
use waldo.Training.Capacity.{
  Demand, text, masked, no_usable_step, not_positive, start, capacity_loop, add_record_capacity,
  add_fully_supervised, supervised_at_once, supervised_loop, terminal_sequences, add, add_loop,
}
use waldo.Training.Epochs.{
  has_targets, maximum_epochs, after_pass, epochs_loop, minimum_epochs, with_minimum_epochs,
}
use waldo.Training.Epochs.Least.{IsLeast, minimum_epochs-IsLeast}

-- Four targets and EOS in every pass.
abbrev each_pass : ℕ → List Demand
each_pass k = text 4 ∷ []

abbrev blank_pass : ℕ → List Demand
blank_pass k = masked 1 (false ∷ false ∷ []) ∷ []

no_target : epochs_loop blank_pass 3 5 0 (start 2) ≡ err no_usable_step
unfolding epochs_loop after_pass has_targets capacity_loop add_record_capacity add_fully_supervised
    supervised_at_once supervised_loop terminal_sequences add add_loop
no_target = refl

two_passes : epochs_loop each_pass 4 5 0 (start 2) ≡ ok 2
unfolding epochs_loop after_pass has_targets capacity_loop add_record_capacity add_fully_supervised
    supervised_at_once supervised_loop terminal_sequences add add_loop
two_passes = refl

no_steps : with_minimum_epochs each_pass 2 2 0 ≡ err not_positive
unfolding with_minimum_epochs
no_steps = refl

minimum_epochs-IsLeast_example : IsLeast each_pass 2 4 maximum_epochs (minimum_epochs each_pass 2 4)
minimum_epochs-IsLeast_example =
    minimum_epochs-IsLeast each_pass 2 4 (omega arith) (omega arith) (λ k. (tt, tt))
