-- ===== src/Command.antt =====
-- The user's commands and the end of the program: `ThreadHandler::execUserCommand` of
-- src/thread_pool.cpp and `sigHandler` of src/user_command_processing.cpp.
pub mod Quit
mod Tests
use rokit_locator_qr_addon.Base.{
  ℕ, Bool, true, false, not, ◌||◌, Option, none, some, List, [], ◌∷◌, ◌++◌, ◌==◌, if◌then◌else◌,
}
use rokit_locator_qr_addon.Rpc.Json.{codes}

-- A result of `getchar`: a byte, or EOF, which as a `char` is neither 0 nor a letter.
pub data Getchar : Type 0 where
  typed : ℕ → Getchar
  eof : Getchar

-- The loop still reads, it has ended at a 0 byte, or it has raised SIGTERM.
pub data Commands : Type 0 where
  reading ended raised : Commands

pub exec_user_command : List Getchar → Commands
exec_user_command [] = reading
exec_user_command (eof ∷ keys) = exec_user_command keys
exec_user_command (typed c ∷ keys) =
    let rest = exec_user_command keys in
    if c == 0 then ended else if c == b'q' || c == b'Q' then raised else rest

-- What the handler leaves, before `exit(0)`: the entries in the log, how many of the connections that
-- it opens are closed again, and whether it says goodbye.
pub record Farewell : Type 0 where
  pub log : List (List ℕ)
  pub closed : ℕ
  pub says_end : Bool

-- With the results of `sqlite3_open` for the two files, of which the second may not be asked for.
pub sig_handler : Bool → Bool → Farewell
sig_handler user_opens self_opens =
    let log : List (List ℕ) = codes "run end--- " ∷ [] in
    if not user_opens
    then record {
      log = log ++ (codes "Can't open customer destructor database pointer " ∷ []);
      closed = 0;
      says_end = false;
    }
    else if not self_opens
    then record {
      log = log ++ (codes "Can't open private destructor database pointer " ∷ []);
      closed = 1;
      says_end = false;
    }
    else record { log = log; closed = 2; says_end = true }

-- SIGTERM is handled by `sigHandler`; `none` as long as the program is not ended by a command.
pub quit : List Getchar → Bool → Bool → Option Farewell
unfolding exec_user_command sig_handler
quit keys user_opens self_opens = elim (exec_user_command keys) [
  | reading ↦ none
  | ended ↦ none
  | raised ↦ some (sig_handler user_opens self_opens)
]
