-- ===== src/Shell/Runs.antt =====
-- The runs of whole lines in the shell (kernel/shell.c), for any property of the screen that the
-- terminal's operations keep.
use jordan_os.Base.{
  ℕ, ◌≡◌, ◌⊎◌, refl, arith, inl, inr, Bool, true, false, Bool-cases, All, Option, some, List, [],
  ◌∷◌, if◌then◌else◌, ◌>>=◌,
}
use Prim.Native.String.{String}
use jordan_os.Io.{outb}
use jordan_os.Str.{Bytes, bytes, array_text}
use jordan_os.Digits.{int_to_str}
use jordan_os.Digits.Decimal.{int_to_str_lem}
use jordan_os.Ata.{Drive}
use jordan_os.Pmm.{Pmm, pmm_get_total_pages, pmm_get_free_pages}
use jordan_os.Fb.{Fb}
use jordan_os.Fb.Print.{fb_print, fb_println, fb_clear_screen, fb_update_theme}
use jordan_os.Shell.{
  Machine, println_all, on_fb, alone, exec_mem, exec_disk, apply_theme, exec_theme, theme,
  theme_help, help, unknown, is, shell_exec_args,
}
use jordan_os.Shell.Terminal.{
  are_bytes, are_bytes, are_bytes-AreBytes, are_bytes-AreBytes, Terminal, Printable, PmmFits,
  DriveFits, WritesInt-AreBytes, theme-Colors,
}

module _ (Takes : Bytes → Type 0) (Ready : Fb → Type 0) (terminal : Terminal Takes Ready) where
  -- A run that ends on a screen that is ready.
  abbrev Prints : Option Fb → Type 0
  Prints run = (g : Fb) × (run ≡ some g) × Ready g

  Prints-bind :
      (run : Option Fb) (k : Fb → Option Fb)
      → Prints run
      → ((g : Fb) → Ready g → Prints (k g))
      → Prints (run >>= k)
  Prints-bind run k (g, e, ready) more = rw e (more g ready)

  print_runs : (text : Bytes) (f : Fb) → Takes text → Ready f → Prints (fb_print text f)
  print_runs text f taken ready = terminal.print_ends text f taken ready

  println_runs : (text : Bytes) (f : Fb) → Takes text → Ready f → Prints (fb_println text f)
  println_runs text f taken ready = terminal.println_ends text f taken ready

  -- The same for a text whose bytes a computation checks.
  print_literal :
      (text : Bytes) (f : Fb) → are_bytes text ≡ true → Ready f → Prints (fb_print text f)
  print_literal text f small ready =
      print_runs text f (terminal.bytes_taken text (are_bytes-AreBytes text small)) ready

  println_literal :
      (text : Bytes) (f : Fb) → are_bytes text ≡ true → Ready f → Prints (fb_println text f)
  println_literal text f small ready =
      println_runs text f (terminal.bytes_taken text (are_bytes-AreBytes text small)) ready

  println_all_runs :
      (texts : List String) (f : Fb)
      → All (λ s. are_bytes (bytes s) ≡ true) texts
      → Ready f
      → Prints (println_all texts f)
  println_all_runs [] f small ready = (f, refl, ready)
  println_all_runs (s ∷ more) f (small, rest) ready =
      Prints-bind (fb_println (bytes s) f) (println_all more)
        (println_literal (bytes s) f small ready) λ g ready1. println_all_runs more g rest ready1

  number_runs :
      (n : ℕ) (k : Bytes → Option Fb)
      → Printable n
      → ((s : Bytes) → Takes s → Prints (k s))
      → Prints (int_to_str n >>= k)
  number_runs n k (small, ne) more =
      let (s, e, w) = int_to_str_lem n small ne in
      rw e (more s (terminal.bytes_taken s (WritesInt-AreBytes n s w)))

  exec_mem_runs : (p : Pmm) (f : Fb) → PmmFits p → Ready f → Prints (exec_mem p f)
  unfolding pmm_get_free_pages pmm_get_total_pages are_bytes
  exec_mem_runs p f (few, fewer) ready =
      number_runs _ _ (omega arith, omega arith)
        λ total taken.
          Prints-bind _ _
            (Prints-bind _ _ (print_literal _ f refl ready) λ g ready1.
              Prints-bind _ _ (print_runs total g taken ready1)
                λ h ready2. println_literal _ h refl ready2)
            λ f1 ready1.
              number_runs _ _ (omega arith, omega arith)
                λ free taken1. Prints-bind _ _ (print_literal _ f1 refl ready1) λ f2 ready2.
                  Prints-bind _ _ (println_runs free f2 taken1 ready2) λ f3 ready3.
                    number_runs _ _ (omega arith, omega arith)
                      λ used taken2.
                        Prints-bind _ _ (print_literal _ f3 refl ready3)
                          λ f4 ready4. println_runs used f4 taken2 ready4

  exec_disk_runs :
      (d : Drive) (f : Fb)
      → DriveFits d
      → Takes (array_text 41 0 d.model)
      → Ready f
      → Prints (exec_disk d f)
  unfolding are_bytes
  exec_disk_runs d f (size, sectors) model ready =
      Prints-bind _ _ (print_literal _ f refl ready) λ f1 ready1.
        Prints-bind _ _ (println_runs _ f1 model ready1) λ f2 ready2.
          Prints-bind _ _ (print_literal _ f2 refl ready2) λ f3 ready3.
            number_runs _ _ size λ s taken.
              Prints-bind _ _ (print_runs s f3 taken ready3) λ f4 ready4.
                Prints-bind _ _ (print_literal _ f4 refl ready4) λ f5 ready5.
                  number_runs _ _ sectors λ t taken1.
                    Prints-bind _ _ (print_runs t f5 taken1 ready5)
                      λ f6 ready6. println_literal _ f6 refl ready6

  apply_theme_runs :
      (name : Bytes) (f : Fb) → Takes name → Ready f → Prints (apply_theme (theme name) name f)
  unfolding are_bytes
  apply_theme_runs name f taken ready = elim (theme-Colors name) [
    | inr (fg, bg, e, hf, hb) ↦
        rw e (fb_update_theme fg bg f, refl, terminal.theme_ends fg bg f hf hb ready)
    | inl e ↦ rw e (
        Prints-bind _ _ (print_literal _ f refl ready) λ g ready1. println_runs name g taken ready1)
  ]

  usage_runs :
      (f : Fb) → Ready f → Prints (println_all ("usage: theme <THEME> OR theme --help" ∷ []) f)
  unfolding are_bytes
  usage_runs f ready =
      println_all_runs ("usage: theme <THEME> OR theme --help" ∷ []) f (refl, tt) ready

  exec_theme_runs :
      (args : List Bytes) (f : Fb) → All Takes args → Ready f → Prints (exec_theme args f)
  unfolding exec_theme are_bytes
  exec_theme_runs [] f taken ready = usage_runs f ready
  exec_theme_runs (name ∷ []) f (taken, _) ready = elim (Bool-cases (is name "--help")) [
    | inl e ↦ rw e (
        println_all_runs theme_help f
          (refl, (refl, (refl, (refl, (refl, (refl, (refl, (refl, (refl, tt))))))))) ready)
    | inr e ↦ rw e (apply_theme_runs name f taken ready)
  ]
  exec_theme_runs (a ∷ b ∷ args) f taken ready = usage_runs f ready

  unknown_runs : (cmd : Bytes) (f : Fb) → Takes cmd → Ready f → Prints (unknown cmd f)
  unfolding are_bytes
  unknown_runs cmd f taken ready = Prints-bind _ _ (print_literal _ f refl ready) λ g ready1.
      Prints-bind _ _ (print_runs cmd g taken ready1) λ h ready2. println_literal _ h refl ready2

  -- A run that ends on a screen that is ready, with the page allocator, the drive and the ports
  -- alone, or with the two accesses of `reboot`.
  abbrev pub Ran : Machine → Option Machine → Type 0
  Ran m run =
      (n : Machine) × (run ≡ some n)
      × Ready n.fb
      × (n.pmm ≡ m.pmm)
      × (n.drive ≡ m.drive)
      × ((n.log ≡ m.log) ⊎ (n.log ≡ outb 0xCF9 0x06 (outb 0x64 0xFE m.log)))

  on_fb-Ran : (run : Fb → Option Fb) (m : Machine) → Prints (run m.fb) → Ran m (on_fb run m)
  on_fb-Ran run m (g, e, ready) = rw e (record m { fb = g }, refl, ready, refl, refl, inl refl)

  alone-Ran :
      (args : List Bytes) (usage : String) (m : Machine) (run : Option Machine)
      → are_bytes (bytes usage) ≡ true
      → Ready m.fb
      → Ran m run
      → Ran m (alone args usage m run)
  alone-Ran [] usage m run small ready ran = ran
  alone-Ran (a ∷ args) usage m run small ready ran =
      on_fb-Ran (println_all (usage ∷ [])) m (println_all_runs (usage ∷ []) m.fb (small, tt) ready)

  branch :
      (m : Machine) (test : Bool) (a b : Option Machine)
      → Ran m a
      → Ran m b
      → Ran m (if test then a else b)
  branch m true a b ha hb = ha
  branch m false a b ha hb = hb

  pub shell_exec_args-Ran :
      (argv : List Bytes) (m : Machine)
      → All Takes argv
      → Ready m.fb
      → PmmFits m.pmm
      → DriveFits m.drive
      → Takes (array_text 41 0 m.drive.model)
      → Ran m (shell_exec_args argv m)
  unfolding shell_exec_args are_bytes
  shell_exec_args-Ran [] m taken ready pages disk model = (m, refl, ready, refl, refl, inl refl)
  shell_exec_args-Ran (cmd ∷ args) m (taken, more) ready pages disk model =
      branch m (is cmd "help") _ _
        (alone-Ran args "help command does not take any arguments" m _ refl ready (
          on_fb-Ran (println_all help) m
            (println_all_runs help m.fb (refl, (refl, (refl, (refl, (refl, (refl, tt)))))) ready)))
        (branch m (is cmd "clear") _ _
          (alone-Ran args "clear command does not take any arguments" m _ refl ready (
            record m { fb = fb_clear_screen m.fb },
            refl,
            terminal.clear_ends m.fb ready,
            refl,
            refl,
            inl refl,
          ))
          (branch m (is cmd "mem") _ _
            (alone-Ran args "mem command does not take any arguments" m _ refl ready
              (on_fb-Ran (exec_mem m.pmm) m (exec_mem_runs m.pmm m.fb pages ready)))
            (branch m (is cmd "disk") _ _
              (alone-Ran args "disk command does not take any arguments" m _ refl ready
                (on_fb-Ran (exec_disk m.drive) m (exec_disk_runs m.drive m.fb disk model ready)))
              (branch m (is cmd "theme") _ _
                (on_fb-Ran (exec_theme args) m (exec_theme_runs args m.fb more ready))
                (branch m (is cmd "reboot") _ _
                  (alone-Ran args "reboot command does not take any arguments" m _ refl ready (
                    record m { log = outb 0xCF9 0x06 (outb 0x64 0xFE m.log) },
                    refl,
                    ready,
                    refl,
                    refl,
                    inr refl,
                  ))
                  (on_fb-Ran (unknown cmd) m (unknown_runs cmd m.fb taken ready)))))))
