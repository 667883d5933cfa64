-- ===== src/Subleq/Tests.antt =====
-- One instruction of the interpreter: `12 - 5`.
use hsq_over_nand.Base.{ℕ, ◌≡◌, refl, Bool, false, none, [], ◌==◌, if◌then◌else◌, arith}
use hsq_over_nand.Word.{sub64, is_non_positive}
use hsq_over_nand.Subleq.{Machine, step}
use hsq_over_nand.Subleq.Plain.{operand, plain}
use hsq_over_nand.Subleq.Step.{step-plain}
use hsq_over_nand.Subleq.Safety.{is_undefined, step-safe}

abbrev sample : Machine
sample = record {
  code = λ i.
      if i == 0 then 9 else if i == 1 then 10 else if i == 2 then 0 else if i == 9 then 5 else 12;
  pc = 0;
  ctrlc = false;
  ctrlc_count = 0;
  head = 0;
  tail = 0;
  die = false;
  output = [];
}

abbrev server : ℕ → ℕ → ℕ × Bool
server x y = (sub64 x y, is_non_positive (sub64 x y))

step-plain_example : step server none sample ≡ plain (operand 9) (operand 10) none 9 10 0 sample
step-plain_example = step-plain server none (λ x y. refl) sample refl (omega arith)

step-safe_example : is_undefined (step server none sample) ≡ false
step-safe_example = step-safe server none sample (omega arith) (λ h. refl) (λ h. refl) (λ h. refl)
