-- ===== src/Keyboard/Live.antt =====
-- The invariant of the keyboard driver (kernel/keyboard.c), and the codes with which it leaves
-- its arrays.
use jordan_os.Base.{
  ℕ, zero, suc, ◌+◌, ◌<◌, ◌≤◌, ◌≡◌, refl, arith, inl, inr, Bool, Bool-cases, Option-cases, u32, ltb,
  leb, not, ◌&&◌, ◌||◌, ◌==◌, Option, none, some, List, [], ◌∷◌, length, if◌then◌else◌, lt→ltb,
  le→ltb,
}
use jordan_os.Str.{bytes, array_text}
use jordan_os.Mem.{write}
use jordan_os.Fb.{Fb, fb_set_col}
use jordan_os.Fb.Draw.{fb_erase_cursor, fb_draw_cursor}
use jordan_os.Fb.Print.{fb_set_row, fb_print}
use jordan_os.Fb.Tape.{Fits}
use jordan_os.Fb.Total.{fb_set_row-Ends, fb_print-Ends, fb_backspace-Fits}
use jordan_os.Fb.Still.{Still-Fits, fb_erase_cursor-Still, fb_draw_cursor-Still}
use jordan_os.Shell.{Machine, shell_exec}
use jordan_os.Shell.Total.{Sound, shell_exec-Obeys}
use jordan_os.Keyboard.{
  Console, scancode_map, uppercase_map, get_elem?, set_line, enter, erase, type_char,
}

-- A sound machine, and a line that fits its array.
abbrev pub Live : Console → Type 0
Live c = Sound c.machine × (c.line_len ≤ 256)

-- With the driver on: a key that is pressed, is neither shift nor Backspace, and comes to a full line
-- or is not in the tables.
abbrev pub overflows : ℕ → Console → Bool
overflows code c =
    (c.stopped == 0)
    && ltb code 128
    && not ((code == 0x2A) || (code == 0x36) || (code == 0x0E))
    && (leb 256 c.line_len || leb 58 code)

get_elem?-some : (map : List ℕ) (i : ℕ) → i < length map → (c : ℕ) × (get_elem? map i ≡ some c)
get_elem?-some [] i h = absurd (omega arith)
get_elem?-some (c ∷ map) zero h = (c, refl)
get_elem?-some (c ∷ map) (suc i) h = get_elem?-some map i (omega arith)

get_elem?-none : (map : List ℕ) (i : ℕ) → length map ≤ i → get_elem? map i ≡ none
get_elem?-none [] i h = refl
get_elem?-none (c ∷ map) zero h = absurd (omega arith)
get_elem?-none (c ∷ map) (suc i) h = get_elem?-none map i (omega arith)

-- `shift ? uppercase_map : scancode_map`
abbrev pub map_of : Console → List ℕ
map_of c = if c.shift == 0 then scancode_map else uppercase_map

map_of-length : (c : Console) → length (map_of c) ≡ 58
map_of-length c = elim (Bool-cases (c.shift == 0)) [ inl e ↦ rw e refl | inr e ↦ rw e refl ]

-- A handler that ends in a live state.
abbrev pub Lives : Option Console → Type 0
Lives run = (d : Console) × (run ≡ some d) × Live d

-- The state that a typed character leads to.
abbrev pub typed : ℕ → Fb → Console → Console
typed ch f c = record c {
  line = write c.line c.line_len ch;
  line_len = c.line_len + 1;
  machine = record c.machine { fb = f };
}

pub type_char-typed :
    (code : ℕ) (c : Console)
    → Live c
    → c.line_len < 256
    → code < 58
    → (ch : ℕ) × (f : Fb) × (get_elem? (map_of c) code ≡ some ch)
      × (type_char code c ≡ some (typed ch f c))
      × Live (typed ch f c)
unfolding type_char set_line
type_char-typed code c ((fits, pages, disk), len) room known =
    let (ch, e) = get_elem?-some (map_of c) code (omega (arith, map_of-length c)) in
    let (f, run, fits', _, _) = fb_print-Ends (ch ∷ []) c.machine.fb fits in
    (ch, f, e, rw (e, lt→ltb c.line_len 256 room, run) refl, ((fits', pages, disk), omega arith))

pub type_char-Lives :
    (code : ℕ) (c : Console) → Live c → c.line_len < 256 → code < 58 → Lives (type_char code c)
type_char-Lives code c live room known =
    let (ch, f, _, run, live') = type_char-typed code c live room known in
    (typed ch f c, run, live')

pub type_char_unknown : (code : ℕ) (c : Console) → 58 ≤ code → type_char code c ≡ none
unfolding type_char
type_char_unknown code c h =
    rw (get_elem?-none (map_of c) code (omega (arith, map_of-length c))) refl

pub type_char_full : (code : ℕ) (c : Console) → 256 ≤ c.line_len → type_char code c ≡ none
unfolding type_char set_line
type_char_full code c h = elim (Option-cases (get_elem? (map_of c) code)) [
  | inl e ↦ rw e refl
  | inr (ch, e) ↦ rw (e, le→ltb c.line_len 256 h) refl
]

pub erase-Live : (c : Console) → Live c → Live (erase c)
unfolding erase
erase-Live c ((fits, pages, disk), len) = elim (Bool-cases (c.line_len == 0)) [
  | inl e ↦ rw e ((fits, pages, disk), len)
  | inr e ↦ rw e ((fb_backspace-Fits c.machine.fb fits, pages, disk), omega arith)
]

-- The terminal's part of Enter: the start of the next row.
next_line :
    (f : Fb)
    → Fits f
    → (row : ℕ) → (g : Fb) × (fb_set_row row (fb_erase_cursor f) ≡ some g) × Fits (fb_set_col 0 g)
next_line f fits row =
    let (g, run, (c0, c1, r0, r1, inside, cr), _, _) =
      fb_set_row-Ends row (fb_erase_cursor f)
        (Still-Fits f (fb_erase_cursor f) (fb_erase_cursor-Still f) fits) in
    (g, run, (c0, c1, r0, r1, c0, cr))

-- The prompt behind a command.
prompt_Fits :
    (f : Fb) → Fits f → (g : Fb) × (fb_print (bytes "> ") f ≡ some g) × Fits (fb_draw_cursor g)
prompt_Fits f fits =
    let (g, run, fits', _, _) = fb_print-Ends (bytes "> ") f fits in
    (g, run, Still-Fits g (fb_draw_cursor g) (fb_draw_cursor-Still g) fits')

-- The machine that a command is started on: the cursor is at the start of the next row.
abbrev pub below : Fb → Machine → Machine
below f m = record m { fb = fb_set_col 0 f }

-- The state that Enter leads to.
abbrev pub entered : Machine → Fb → Console → Console
entered m g c = record c {
  line = write c.line c.line_len 0;
  line_len = 0;
  machine = record m { fb = fb_draw_cursor g };
}

pub enter-entered :
    (c : Console)
    → Live c
    → c.line_len < 256
    → (f : Fb) × (m : Machine) × (g : Fb) × (fb_set_row
          (u32 ((fb_erase_cursor c.machine.fb).cur_row + 1))
          (fb_erase_cursor c.machine.fb)
        ≡ some f)
      × (shell_exec (array_text 256 0 (write c.line c.line_len 0)) (below f c.machine) ≡ some m)
      × (fb_print (bytes "> ") m.fb ≡ some g)
      × (enter c ≡ some (entered m g c))
      × Live (entered m g c)
unfolding enter set_line
enter-entered c ((fits, pages, disk), len) room =
    let (f, up, fits1) =
      next_line c.machine.fb fits (u32 ((fb_erase_cursor c.machine.fb).cur_row + 1)) in
    let line = array_text 256 0 (write c.line c.line_len 0) in
    let (m, run, (fits2, pages2, disk2), _, _, _) =
      shell_exec-Obeys line (below f c.machine) (fits1, pages, disk) in
    let (g, shown, fits3) = prompt_Fits m.fb fits2 in
    (
      f,
      m,
      g,
      up,
      run,
      shown,
      rw (up, lt→ltb c.line_len 256 room, run, shown) refl,
      ((fits3, pages2, disk2), omega arith),
    )

pub enter-Lives : (c : Console) → Live c → c.line_len < 256 → Lives (enter c)
enter-Lives c live room =
    let (f, m, g, _, _, _, run, live') = enter-entered c live room in (entered m g c, run, live')

pub enter_full : (c : Console) → Sound c.machine → 256 ≤ c.line_len → enter c ≡ none
unfolding enter set_line
enter_full c (fits, pages, disk) full =
    let (f, up, fits1) =
      next_line c.machine.fb fits (u32 ((fb_erase_cursor c.machine.fb).cur_row + 1)) in
    rw (up, le→ltb c.line_len 256 full) refl
