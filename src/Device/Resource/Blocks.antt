-- ===== src/Device/Resource/Blocks.antt =====
-- The transfer of apps and images in blocks: `get_app_handler` of src/device/resources/app.cpp, and
-- `get_ota_handler` of src/device/resources/ota.cpp, which reads from another folder.
pub mod Transfer
use agro_daemon.Base.{
  ℕ, zero, suc, ◌-◌, ◌%◌, ◌^◌, Bool, true, not, List, [], ◌∷◌, Option, none, some, if◌then◌else◌,
  length, ltb,
}

unfoldable pub take : ℕ → List ℕ → List ℕ
take zero bytes = []
take (suc n) [] = []
take (suc n) (c ∷ bytes) = c ∷ take n bytes

unfoldable pub drop : ℕ → List ℕ → List ℕ
drop zero bytes = bytes
drop (suc n) [] = []
drop (suc n) (c ∷ bytes) = drop n bytes

-- The files of a folder by the text behind its path: the contents of a regular file, and whether a
-- stream on it opens.
pub record Folder : Type 0 where
  pub file : List ℕ → Option (List ℕ)
  pub opens : List ℕ → Bool

-- What the library of CoAP reads from the value of an option `block2`.
pub record BlockOption : Type 0 where
  pub block_size : ℕ → ℕ
  pub block_number : ℕ → ℕ
  pub byte_offset : ℕ → ℕ

-- The arguments of `make_block`.
pub record Block : Type 0 where
  pub number : ℕ
  pub more : Bool
  pub size : ℕ

-- The response: "file not found", "out of bound", or the size of the file with a block of it.
pub data Served : Type 0 where
  file_not_found out_of_bound : Served
  content : ℕ → Block → List ℕ → Served

-- `DEFAULT_BLOCK_SIZE`
abbrev pub default_block_size : ℕ
default_block_size = 512

-- The end of the handler, with `left` bytes from `offset` on.
unfoldable pub send_block : Bool → List ℕ → ℕ → ℕ → ℕ → Block → Served
send_block opens bytes size offset left block =
    let payload_len = if ltb block.size left then block.size else left in
    if opens then content size block (take payload_len (drop offset bytes)) else file_not_found

-- The value of the option `block2`, if the request has it.
unfoldable pub get_file_handler : BlockOption → Folder → List ℕ → Option ℕ → Served
get_file_handler engine folder name b2 = elim (folder.file name) [
  | none ↦ file_not_found
  | some bytes ↦
      let size = length bytes % 2 ^ 32 in
      elim b2 [
        | none ↦
            send_block (folder.opens name) bytes size 0 size
              (record { number = 0; more = true; size = default_block_size })
        | some value ↦
            let offset = engine.byte_offset value in
            let left = size - offset in
            if ltb size offset
            then out_of_bound
            else send_block (folder.opens name) bytes size offset left (record {
              number = engine.block_number value;
              more = not (ltb left (engine.block_size value));
              size = engine.block_size value;
            })
      ]
]
