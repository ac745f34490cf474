-- ===== src/Foreign/Host.antt =====
-- What the command line takes of the system: the terminal, files, the random generator, and the
-- network that fvm_shared keeps for the process.
use basin.Prelude.{ℕ, String, Bool, List}
use basin.Prelude.Bytes.{Bytes}
use basin.Result.{Result}
use basin.Run.{Run}
use basin.Foreign.Data.{Types, FvmNetwork}

module _ (T : Types) where
  open T use {World, Console, File, Input, InputReader, SecretKey}

  pub record System : Type 0 where
    -- `println!("{}", s)`, and `write_all` on standard output
    pub println : String → Console → Console
    pub stdout_write_all : Bytes → Run Console (Unit {0})
    -- `File::open` and `metadata().await?.is_file()`
    pub file_open : String → Run World File
    pub file_is_file : File → Run World Bool
    -- the file as a reader: what its reads give, whether it can be rewound, and its stream after that
    pub file_reads : File → List (Result Bytes)
    pub file_rewind : File → Result (Unit {0})
    pub file_stream : File → List (Result Bytes)
    -- `into_iter().collect()` of pairs into a `HashMap`, as the list of the entries
    pub hash_map_of : List (String × String) → List (String × String)
    -- `FileOrStdin::into_async_reader` and `read_to_end`
    pub open_input : Input → Run World InputReader
    pub read_to_end : InputReader → Run World Bytes
    -- `SecretKey::random(&mut rand::thread_rng())`
    pub random_key : Run World SecretKey
    -- `async_tempfile::TempFile::new`, and its `write_all`, `flush` and `rewind`, each with the handle
    -- that it leaves
    pub temp_file : Run World File
    pub file_write_all : Bytes → File → Run World File
    pub file_flush : File → Run World File
    pub file_seek_start : File → Run World File
    -- so many bytes that `thread_rng` fills, and `tokio::time::sleep` for so many seconds
    pub random_bytes : ℕ → World → Bytes × World
    pub sleep : ℕ → World → World
    -- `set_current_network`
    pub set_current_network : FvmNetwork → World → World
