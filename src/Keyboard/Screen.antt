-- ===== src/Keyboard/Screen.antt =====
-- The keyboard driver (kernel/keyboard.c) on a screen whose pixels show the text.
use jordan_os.Base.{
  ℕ, zero, suc, ◌+◌, ◌-◌, ◌<◌, ◌≤◌, ◌≡◌, ◌⊎◌, refl, sym, arith, inl, inr, Bool, true, false,
  Bool-cases, Option-cases, Option, none, some, some_inj, List, [], ◌∷◌, ◌==◌, ◌||◌, not, ltb,
  ltb→lt, if◌then◌else◌, bit_and, ◌^◌,
}
use mathlib.Core.Path.{subst}
use jordan_os.Str.{bytes, AreBytes, array_text}
use jordan_os.Mem.{write}
use jordan_os.Fb.{Fb, fb_set_col, fb_cursor_activity}
use jordan_os.Fb.Draw.{fb_erase_cursor, fb_draw_cursor, fb_backspace}
use jordan_os.Fb.Tidy.{Clean-Tidy, fb_erase_cursor-Clean, fb_draw_cursor-Tidy, fb_print-Tidy}
use jordan_os.Fb.Erased.{fb_backspace-Tidy}
use jordan_os.Fb.Rows.{fb_set_row-Clean, fb_cursor_activity-Tidy}
use jordan_os.Shell.{Machine}
use jordan_os.Shell.Terminal.{PmmFits, DriveFits, are_bytes, are_bytes-AreBytes}
use jordan_os.Shell.Screen.{OnScreen, shell_exec-OnScreen}
use jordan_os.Keyboard.{
  Console, get_elem?, scancode_map, uppercase_map, set_line, set_fb, enter, erase, type_char,
  handle_code,
}
use jordan_os.Keyboard.Live.{Live, map_of}
use jordan_os.Keyboard.Faults.{active}

-- A console whose screen shows its text, whose line is bytes in its array, and whose page allocator
-- and drive the shell can print.
pub record Neat (c : Console) : Type 0 where
  pub screen : OnScreen c.machine.fb
  pub pages : PmmFits c.machine.pmm
  pub disk : DriveFits c.machine.drive
  pub model : AreBytes (array_text 41 0 c.machine.drive.model)
  pub line_bytes : (i : ℕ) → c.line i < 256
  pub room : c.line_len ≤ 256

-- A handler that faults, or ends in such a state.
abbrev Keeps : Option Console → Type 0
Keeps run = (run ≡ none) ⊎ ((d : Console) × (run ≡ some d) × Neat d)

pub Neat-Live : (c : Console) → Neat c → Live c
Neat-Live c neat = let (_, _, tidy) = neat.screen in ((tidy.fits, neat.pages, neat.disk), neat.room)

-- The console with another screen.
set_fb-Neat : (f : Fb) (c : Console) → OnScreen f → Neat c → Neat (set_fb f c)
set_fb-Neat f c shown neat = record {
  screen = shown;
  pages = neat.pages;
  disk = neat.disk;
  model = neat.model;
  line_bytes = neat.line_bytes;
  room = neat.room;
}

active-Neat : (c : Console) → Neat c → Neat (active c)
active-Neat c neat =
    let (fg, bg, tidy) = neat.screen in
    set_fb-Neat (fb_cursor_activity c.ticks c.machine.fb) c
      (fg, bg, fb_cursor_activity-Tidy c.ticks fg bg c.machine.fb tidy) neat

shift-Neat : (shift : ℕ) (c : Console) → Neat c → Neat (record c { shift = shift })
shift-Neat shift c neat = record {
  screen = neat.screen;
  pages = neat.pages;
  disk = neat.disk;
  model = neat.model;
  line_bytes = neat.line_bytes;
  room = neat.room;
}

erase-Neat : (c : Console) → Neat c → Neat (erase c)
unfolding erase
erase-Neat c neat = elim (Bool-cases (c.line_len == 0)) [
  | inl empty ↦ rw empty neat
  | inr more ↦
      let (fg, bg, tidy) = neat.screen in
      let less : c.line_len - 1 ≤ 256 = omega (arith, neat.room) in
      let erased : Neat
          (record (set_fb (fb_backspace c.machine.fb) c) { line_len = c.line_len - 1 }) =
        record {
          screen = (fg, bg, fb_backspace-Tidy fg bg c.machine.fb tidy);
          pages = neat.pages;
          disk = neat.disk;
          model = neat.model;
          line_bytes = neat.line_bytes;
          room = less;
        } in
      rw more erased
]

get_elem?-byte : (map : List ℕ) (i ch : ℕ) → AreBytes map → get_elem? map i ≡ some ch → ch < 256
get_elem?-byte [] i ch small h = cc
get_elem?-byte (c ∷ map) zero ch (small, _) h = subst (λ (k : ℕ). k < 256) (some_inj.0 h) small
get_elem?-byte (c ∷ map) (suc i) ch (_, small) h = get_elem?-byte map i ch small h

map_of-AreBytes : (c : Console) → AreBytes (map_of c)
unfolding are_bytes
map_of-AreBytes c = elim (Bool-cases (c.shift == 0)) [
  | inl e ↦ rw e (are_bytes-AreBytes scancode_map refl)
  | inr e ↦ rw e (are_bytes-AreBytes uppercase_map refl)
]

write-bytes :
    (line : ℕ → ℕ) (i v : ℕ) → ((j : ℕ) → line j < 256) → v < 256 → (j : ℕ) → write line i v j < 256
unfolding write
write-bytes line i v small hv j = ground (arith, small j)

type_char-Keeps : (code : ℕ) (c : Console) → Neat c → Keeps (type_char code c)
unfolding type_char set_line
type_char-Keeps code c neat = elim (Option-cases (get_elem? (map_of c) code)) [
  | inl unknown ↦ rw unknown (inl refl)
  | inr (ch, known) ↦ elim (Bool-cases (ltb c.line_len 256)) [
    | inr full ↦ rw (known, full) (inl refl)
    | inl room ↦
        let (fg, bg, tidy) = neat.screen in
        let small = get_elem?-byte (map_of c) code ch (map_of-AreBytes c) known in
        let (f, run, tidy') = fb_print-Tidy (ch ∷ []) fg bg c.machine.fb (small, tt) tidy in
        rw (known, room, run)
          (inr (
            record c {
              line = write c.line c.line_len ch;
              line_len = c.line_len + 1;
              machine = record c.machine { fb = f };
            },
            refl,
            record {
              screen = (fg, bg, tidy');
              pages = neat.pages;
              disk = neat.disk;
              model = neat.model;
              line_bytes = write-bytes c.line c.line_len ch neat.line_bytes small;
              room = omega (arith, ltb→lt c.line_len 256 room);
            },
          ))
  ]
]

pub array_text-AreBytes :
    (n i : ℕ) (a : ℕ → ℕ) → ((j : ℕ) → a j < 256) → AreBytes (array_text n i a)
unfolding array_text
array_text-AreBytes zero i a small = tt
array_text-AreBytes (suc n) i a small = (small i, array_text-AreBytes n (i + 1) a small)

enter-Keeps : (c : Console) → Neat c → Keeps (enter c)
unfolding enter set_line are_bytes
enter-Keeps c neat =
    let (fg, bg, tidy) = neat.screen in
    let e = fb_erase_cursor c.machine.fb in
    let (f, up, clean) = fb_set_row-Clean fg bg e (fb_erase_cursor-Clean fg bg c.machine.fb tidy) in
    elim (Bool-cases (ltb c.line_len 256)) [
      | inr full ↦ rw (up, full) (inl refl)
      | inl room ↦
          let line = write c.line c.line_len 0 in
          let small = write-bytes c.line c.line_len 0 neat.line_bytes (omega arith) in
          let started : Machine = record c.machine { fb = fb_set_col 0 f } in
          let (m, run, (fg1, bg1, tidy1), pmm, drive, _) =
            shell_exec-OnScreen (array_text 256 0 line) started
              (array_text-AreBytes 256 0 line small)
              (fg, bg, Clean-Tidy fg bg (fb_set_col 0 f) clean) neat.pages neat.disk neat.model in
          let prompt = are_bytes-AreBytes (bytes "> ") refl in
          let (g, shown, tidy2) = fb_print-Tidy (bytes "> ") fg1 bg1 m.fb prompt tidy1 in
          rw (up, room, run, shown)
            (inr (
              record c { line = line; line_len = 0; machine = record m { fb = fb_draw_cursor g } },
              refl,
              record {
                screen = (fg1, bg1, fb_draw_cursor-Tidy fg1 bg1 g tidy2);
                pages = subst PmmFits (sym pmm) neat.pages;
                disk = subst DriveFits (sym drive) neat.disk;
                model = subst (λ d. AreBytes (array_text 41 0 d.model)) (sym drive) neat.model;
                line_bytes = small;
                room = omega arith;
              },
            ))
    ]

Keeps-if : (test : Bool) (a b : Option Console) → Keeps a → Keeps b → Keeps (if test then a else b)
Keeps-if true a b ha hb = ha
Keeps-if false a b ha hb = hb

pub handle_code-Keeps : (code : ℕ) (c : Console) → Neat c → Keeps (handle_code code c)
unfolding handle_code
handle_code-Keeps code c neat =
    let now = active-Neat c neat in
    Keeps-if (not (c.stopped == 0)) _ _ (inr (c, refl, neat)) (
      Keeps-if ((code == 0xAA) || (code == 0xB6)) _ _ (inr (_, refl, shift-Neat 0 c neat)) (
        Keeps-if (not (bit_and code (2 ^ 7) == 0)) _ _ (inr (c, refl, neat)) (
          Keeps-if ((code == 0x2A) || (code == 0x36)) _ _
            (inr (_, refl, shift-Neat 1 (active c) now))
            (Keeps-if (code == 0x1C) _ _ (enter-Keeps (active c) now) (
              Keeps-if (code == 0x0E) _ _ (inr (_, refl, erase-Neat (active c) now))
                (type_char-Keeps code (active c) now))))))
