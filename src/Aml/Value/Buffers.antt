-- ===== src/Aml/Value/Buffers.antt =====
-- aml/src/value.rs: the store of the buffers that values share. An address is a place in it; `Arc::new`
-- takes the next one, and nothing is given back.
use acpi_rs.Prelude.{ℕ, List, [], ◌∷◌, ◌++◌, length, get_or, set}

abbrev pub Buffers : Type 0
Buffers = List (List ℕ)

unfoldable pub bytes_of : Buffers → ℕ → List ℕ
bytes_of store a = get_or store a []

-- `Arc::new(Spinlock::new(bytes))`: the address with the new store.
unfoldable pub allocate : Buffers → List ℕ → ℕ × Buffers
allocate store bytes = (length store, store ++ bytes ∷ [])

-- A write through the lock.
unfoldable pub put_bytes : Buffers → ℕ → List ℕ → Buffers
put_bytes store a bytes = set store a bytes
