-- ===== src/Aml/Context.antt =====
-- aml/src/lib.rs: `Handler`, `MethodContext` and `AmlContext`. `W` is the state of the machine that the
-- handler of the user reads and writes; a read does not change it.
pub mod Regions
pub mod Convert
pub mod Store
pub mod Methods
use acpi_rs.Prelude.{ℕ, ◌^◌, ◌<◌, refl, List, replicate, Option, some, none, err, panic}
use acpi_rs.Aml.Types.{AmlName, Result}
use acpi_rs.Aml.Namespace.{Namespace}
use acpi_rs.Aml.Value.{AmlValue}
use acpi_rs.Aml.Value.Arguments.{Slots}
use acpi_rs.Aml.Value.Buffers.{Buffers}
use acpi_rs.Aml.Parsing.Scope.{DebugContext, DebugVerbosity}

-- The accesses of each width, which is given in bits: `read_u8` is `read_memory 8`. The types of their
-- results bound them.
pub record Handler (W : Type 0) : Type 0 where
  -- width, address
  pub read_memory : ℕ → ℕ → W → ℕ
  -- width, address, value
  pub write_memory : ℕ → ℕ → ℕ → W → W
  -- width, port
  pub read_io : ℕ → ℕ → W → ℕ
  pub write_io : ℕ → ℕ → ℕ → W → W
  -- width, segment, bus, device, function, offset
  pub read_pci : ℕ → ℕ → ℕ → ℕ → ℕ → ℕ → W → ℕ
  pub write_pci : ℕ → ℕ → ℕ → ℕ → ℕ → ℕ → ℕ → W → W
  -- type, code, argument; `none` is a panic, which is the default
  pub handle_fatal_error : ℕ → ℕ → ℕ → W → Option W
  pub read_memory-lt : (n a : ℕ) (w : W) → read_memory n a w < 2 ^ n
  pub read_io-lt : (n p : ℕ) (w : W) → read_io n p w < 2 ^ n
  pub read_pci-lt : (n s b d f o : ℕ) (w : W) → read_pci n s b d f o w < 2 ^ n

pub record MethodContext : Type 0 where
  pub locals : Slots
  pub args : Slots

-- `MethodContext::new`.
abbrev pub new_method_context : Slots → MethodContext
new_method_context args = record { locals = replicate 8 none; args = args }

-- `AmlContext`, with the buffers that its values share.
pub record Context (W : Type 0) : Type 0 where
  pub machine : W
  pub namespace : Namespace AmlValue
  pub buffers : Buffers
  pub method_context : Option MethodContext
  pub current_scope : AmlName
  pub indent : ℕ
  pub verbosity : DebugVerbosity

instance abbrev pub context_debug : {W : Type 0} → DebugContext (Context W)
context_debug = record {
  debug_verbosity = λ c. c.verbosity;
  scope_indent = λ c. c.indent;
  set_scope_indent = λ n c. record c { indent = n };
  debug_verbosity-set = λ n c. refl;
  scope_indent-set = λ n c. refl;
  set-set = λ m n c. refl;
  set-scope_indent = λ c. refl;
}

-- The loops of the namespace end with the fuel that they have.
abbrev pub settled {ℓ} : {A : Type ℓ} → Option (Result A) → Result A
settled (some r) = r
settled none = panic

-- `unwrap`.
abbrev pub unwrap {ℓ} : {A : Type ℓ} → Result A → Result A
unwrap (err e) = panic
unwrap r = r
