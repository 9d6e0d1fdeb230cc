-- ===== src/Constants.antt =====
-- The format constants and limits: src/constants.rs, and the derived lengths at the head of
-- src/vault/index_codec.rs.
use memseal.Prelude.{ℕ, ◌+◌, ◌*◌, List, [], ◌∷◌}

abbrev pub vault_version : ℕ
vault_version = 2

abbrev pub legacy_vault_version_1 : ℕ
legacy_vault_version_1 = 1

abbrev pub supported_vault_versions : List ℕ
supported_vault_versions = legacy_vault_version_1 ∷ vault_version ∷ []

-- `argon2::MEMORY_COST`, `argon2::ITERATIONS`, `argon2::KEY_LEN` and `argon2::SALT_LEN`.
abbrev pub memory_cost : ℕ
memory_cost = 131_072

abbrev pub iterations : ℕ
iterations = 4

abbrev pub key_len : ℕ
key_len = 32

abbrev pub salt_len : ℕ
salt_len = 16

abbrev pub vault_index_version : ℕ
vault_index_version = 2

abbrev pub legacy_index_version_1 : ℕ
legacy_index_version_1 = 1

abbrev pub max_index_entries : ℕ
max_index_entries = 1024

abbrev pub xchacha20_nonce_len : ℕ
xchacha20_nonce_len = 24

-- `POLY1305_OUTSIZE` of the `orion` crate: the length of a Poly1305 tag.
abbrev pub poly1305_outsize : ℕ
poly1305_outsize = 16

abbrev pub min_kdf_memory : ℕ
min_kdf_memory = 32_768

abbrev pub max_kdf_memory : ℕ
max_kdf_memory = 262_144

abbrev pub min_kdf_iterations : ℕ
min_kdf_iterations = 3

abbrev pub max_kdf_iterations : ℕ
max_kdf_iterations = 10

abbrev pub max_header_json_len : ℕ
max_header_json_len = 4096

abbrev pub max_vault_file_size : ℕ
max_vault_file_size = 256 * 1024 * 1024

abbrev pub min_password_len : ℕ
min_password_len = 8

abbrev pub max_entry_name_len : ℕ
max_entry_name_len = 255

abbrev pub max_entry_data_size : ℕ
max_entry_data_size = 64 * 1024 * 1024

abbrev pub subkey_len : ℕ
subkey_len = 32

abbrev pub entry_key_len : ℕ
entry_key_len = 32

abbrev pub min_encrypted_len : ℕ
min_encrypted_len = xchacha20_nonce_len + poly1305_outsize

abbrev pub max_encrypted_data_len : ℕ
max_encrypted_data_len = xchacha20_nonce_len + max_entry_data_size + poly1305_outsize

abbrev pub max_encrypted_name_len : ℕ
max_encrypted_name_len = xchacha20_nonce_len + max_entry_name_len + poly1305_outsize

abbrev pub index_preamble_len : ℕ
index_preamble_len = 2 + 8 + 8 + 4

abbrev pub entry_fixed_len : ℕ
entry_fixed_len = entry_key_len + 8 + 4 + 4

abbrev pub min_entry_len : ℕ
min_entry_len = entry_fixed_len + 2 * min_encrypted_len

-- `u64::MAX` and `u32::MAX`.
abbrev pub u64_max : ℕ
u64_max = 0xffff_ffff_ffff_ffff

abbrev pub u32_max : ℕ
u32_max = 0xffff_ffff
