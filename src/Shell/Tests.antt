-- ===== src/Shell/Tests.antt =====
-- The shell of kernel/arch/i386/tty.c on small lines.
use potato_os.Base.{
  ℕ, ◌+◌, ◌≡◌, refl, inr, true, false, List, [], ◌∷◌, ◌++◌, length, codes, some, SameOutside,
  store_list, upd, arith,
}
use potato_os.Shell.{Layout, Shell, back, buffer_size}
use potato_os.Shell.Keyboard.{key_of}
use potato_os.Shell.Line.{IsLine}
use potato_os.Shell.Handler.{handle_key}
use potato_os.Shell.Keys.{handle_keys, handle_keys-edits}
use potato_os.Shell.Prompt.{prompt_console}
use potato_os.Shell.Unknown.{complain, handle_key-unknown}
use potato_os.Shell.Exit.{handle_keys-exit}
use potato_os.Shell.ColorKey.{handle_keys-below}

abbrev layout : Layout
layout = record { input_buffer = 0x2000; space = 0x1000; no_fat = 0x1100; entering = 0x1200 }

abbrev user : List ℕ
user = codes "potato"

-- The line stands in the buffer and behind the prompt.
abbrev with_line : List ℕ → Shell
with_line line = record {
  terminal = record {
    row = 2;
    column = 15 + length line;
    color = 15;
    buffer = 0xB8000;
    initialized = true;
    cells = λ _. 0;
    outs = [];
  };
  memory = store_list (store_list (λ _. 0) 0x3000 user) 0x2000 line;
  last = 0;
  input_buffer_index = length line;
  username = 0x3000;
  exit_loop = false;
  fsinit = false;
  waitwrite = false;
  eventlog = [];
}

empty-IsLine : IsLine layout user (with_line []) []
unfolding store_list upd
empty-IsLine = record {
  placed = record {
    fits = omega arith;
    apart = inr (omega arith);
    named = ground arith;
    short = omega arith;
  };
  on_screen = record { row = omega arith; column = omega arith; buffer = refl };
  index = refl;
  bound = omega arith;
  holds = tt;
  column = refl;
}

hi-IsLine : IsLine layout user (with_line (codes "hi")) (codes "hi")
unfolding store_list upd
hi-IsLine = record {
  placed = record {
    fits = omega arith;
    apart = inr (omega arith);
    named = ground arith;
    short = omega arith;
  };
  on_screen = record { row = omega arith; column = omega arith; buffer = refl };
  index = refl;
  bound = omega arith;
  holds = (refl, (refl, tt));
  column = refl;
}

-- The scan code of 'e', its release, and a code behind the table's entries.
keys : (key_of 0x12 ≡ 101) × (key_of 0x92 ≡ 0) × (key_of 0x7f ≡ 0)
unfolding key_of
keys = (refl, refl, refl)

handle_keys-edits_example :
    (s' : Shell) × (handle_keys 100 (codes "hi" ++ (8 ∷ [])) layout (with_line []) ≡ some (back s'))
    × IsLine layout user s' (codes "h")
    × SameOutside 0x2000 buffer_size (with_line []).memory s'.memory
handle_keys-edits_example =
    handle_keys-edits layout user 100 (codes "hi" ++ (8 ∷ [])) (with_line []) [] empty-IsLine
      (omega arith) (ground arith)

handle_key-unknown_example :
    (s' : Shell) × (handle_key 100 10 layout (with_line (codes "hi")) ≡ some (back s'))
    × IsLine layout user s' []
    × (s'.terminal ≡ prompt_console user (complain (codes "hi") (with_line (codes "hi")).terminal))
    × SameOutside 0x2000 buffer_size (with_line (codes "hi")).memory s'.memory
handle_key-unknown_example =
    handle_key-unknown layout user 100 (with_line (codes "hi")) (codes "hi") hi-IsLine
      (ground arith) (ground arith) (omega arith) refl (omega arith) (omega arith)

handle_keys-exit_example :
    (s' : Shell) × (handle_keys 100 (codes "exit" ++ (10 ∷ [])) layout (with_line [])
      ≡ some (back s'))
    × (s'.exit_loop ≡ true)
    × IsLine layout user s' []
    × SameOutside 0x2000 buffer_size (with_line []).memory s'.memory
handle_keys-exit_example =
    handle_keys-exit layout user 100 (with_line []) empty-IsLine (omega arith)

handle_keys-below_example :
    (s' : Shell) × (handle_keys 100 (85 ∷ 8 ∷ 8 ∷ 97 ∷ []) layout (with_line []) ≡ some (back s'))
    × (s'.memory 0x1fff ≡ 0)
handle_keys-below_example =
    handle_keys-below layout user 100 97 (with_line []) empty-IsLine (omega arith) (omega arith)
      (omega arith) (omega arith) (omega arith) (omega arith) (omega arith)
