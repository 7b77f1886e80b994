-- ===== src/Aml/Expression/Resources.antt =====
-- aml/src/expression.rs and resource.rs: the concatenation of buffers of resources.
use acpi_rs.Prelude.{ℕ, ◌-◌, ◌%◌, List, [], ◌∷◌, ◌++◌}
use acpi_rs.BitField.{BitField}
use acpi_rs.Bytes.{wrapping_sum}
use acpi_rs.Aml.Value.Buffers.{Buffers}
use acpi_rs.Aml.Resource.Types.{Resource}
use acpi_rs.Aml.Resource.Encode.{encode}
use acpi_rs.Aml.Context.{Context}

-- The descriptors without an end tag.
body : List Resource → List ℕ
body [] = []
body (r ∷ rs) = encode r ++ body rs

checksum_of : List Resource → ℕ
checksum_of rs = (256 - wrapping_sum 0 (body rs ++ 0x79 ∷ [])) % 256
