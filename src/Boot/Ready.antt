-- ===== src/Boot/Ready.antt =====
-- The run of `kernel_main` (kernel/kernel.c) over a memory map and a screen as a boot loader
-- describes them.
use jordan_os.Base.{
  ◌∙◌, ap, inl, inr, ℕ, ◌+◌, ◌*◌, ◌^◌, ◌<◌, ◌≤◌, ◌≡◌, ◌≢◌, refl, arith, some, List, ◌∷◌, length,
  u64,
}
use jordan_os.Io.{Hardware, Log}
use jordan_os.Mem.{Mem, load32, load64}
use jordan_os.Multiboot.{tag_mmap, tag_fb, size_of}
use jordan_os.Multiboot.Tags.{TagsAt, first_tag}
use jordan_os.Pmm.{Pmm, pmm_init}
use jordan_os.Pmm.Alloc.{AllocOutcome, pmm_alloc_lem}
use jordan_os.Pmm.Bitmap.{max_pages}
use jordan_os.Pmm.Count.{IsValid, free_count-le}
use jordan_os.Pmm.Init.{EntriesAt, pmm_init_lem}
use jordan_os.Pmm.Regions.{Region, total_pages}
use jordan_os.Heap.{Heap, heap_init}
use jordan_os.Pic.{pic_init}
use jordan_os.Timer.{pit_init}
use jordan_os.Ata.{Drive, ata_identify, set_drive}
use jordan_os.Ata.Init.{ata_init}
use jordan_os.Fb.{Fb, fb_black, fb_init, set_geometry, fb_get_addr, fb_get_size}
use jordan_os.Fb.Draw.{fb_clear}
use jordan_os.Fb.Tape.{Fits}
use jordan_os.Fb.Geometry.{Landscape, fb_init-Fits}
use jordan_os.Shell.Terminal.{PmmFits, DriveFits}
use jordan_os.Keyboard.{Console, keyboard_init}
use jordan_os.Idt.{idt_init}
use jordan_os.Paging.{Tables, paging_map_fb}
use jordan_os.Paging.Walk.{reached, Placed, paging_map_fb-reached}
use jordan_os.Boot.{Kernel, Image, greet, kernel_main}

-- What the disk driver takes a drive for that is identified now.
abbrev pub identified : Hardware → (ℕ → ℕ) → Drive → Log → Drive
identified hw buf drive log = set_drive (ata_identify hw buf log).1 drive

outcome_total : (p q : Pmm) (addr : ℕ) → AllocOutcome p addr q → q.pages_num ≡ p.pages_num
outcome_total p q addr (inl (_, _, same)) = ap (λ (x : Pmm). x.pages_num) same
outcome_total p q addr (inr (i, page)) = page.same_total

heap_init_ends :
    (h : Heap)
    → IsValid h.pmm
    → (g : Heap) × (heap_init h ≡ some g) × IsValid g.pmm × (g.pmm.pages_num ≡ h.pmm.pages_num)
unfolding heap_init
heap_init_ends h v =
    let (page, pmm, run, outcome, valid) = pmm_alloc_lem h.pmm v in
    rw run (_, refl, valid, outcome_total h.pmm pmm page outcome)

pub IsValid-PmmFits : (p : Pmm) → IsValid p → PmmFits p
IsValid-PmmFits p v =
    (omega (arith, v.bounded), omega (arith, v.counted, free_count-le p.bitmap p.pages_num))

-- The information block that the boot loader leaves: tags of these types, a memory map with these
-- regions, and a screen.
pub record Loaded (m : Mem) (mbi map screen : ℕ) (types : List ℕ) (r : Region) (rs : List Region)
    : Type 0 where
  pub tags : TagsAt m (mbi + 8) types
  pub map_found : first_tag m (mbi + 8) types tag_mmap ≡ map
  pub map_there : map ≢ 0
  pub entries : EntriesAt m (u64 (map + size_of m map)) (load32 m (map + 8)) (map + 16) r rs
  pub pages : total_pages (r ∷ rs) ≤ max_pages
  pub screen_found : first_tag m (mbi + 8) types tag_fb ≡ screen
  pub screen_there : screen ≢ 0
  pub bytes_only : (a : ℕ) → m a < 2 ^ 8
  pub landscape : Landscape m screen
  pub placed : Placed (load64 m (screen + 8)) (load32 m (screen + 24) * load32 m (screen + 16))

-- What the globals hold at the start, as far as it matters.
abbrev pub Fresh : Console → Type 0
Fresh c =
    (c.machine.fb.cur_col ≡ 0)
    × (c.machine.fb.cur_row ≡ 0)
    × (c.line_len ≤ 256)
    × DriveFits c.machine.drive

module _ (hw : Hardware) (image : Image) (fuel tags : ℕ) (buf : ℕ → ℕ) (mbi map screen : ℕ)
    (types : List ℕ) (r : Region) (rs : List Region) (k : Kernel)
    (loaded : Loaded k.console.machine.fb.mem mbi map screen types r rs)
    (enough_tags : length types < tags) (enough : length rs + 1 < fuel)
    (fresh : Fresh k.console) where
  pages_counted :
      (p : Pmm) × (pmm_init fuel tags k.console.machine.fb.mem mbi k.console.machine.pmm ≡ some p)
      × (p.pages_num ≡ total_pages (r ∷ rs))
      × IsValid p
  pages_counted =
      let (p, run, total, _, valid) =
        pmm_init_lem tags k.console.machine.fb.mem mbi types loaded.tags enough_tags map
          loaded.map_found loaded.map_there fuel r rs k.console.machine.pmm loaded.entries
          loaded.pages enough in
      (p, run, total, valid)

  pub screen_laid :
      (fb_init tags mbi k.console.machine.fb ≡ some (set_geometry screen k.console.machine.fb))
      × Fits (set_geometry screen k.console.machine.fb)
  screen_laid =
      let (col, row, _, _) = fresh in
      fb_init-Fits tags mbi k.console.machine.fb types screen loaded.tags enough_tags
        loaded.screen_found loaded.screen_there loaded.bytes_only col row loaded.landscape

  -- Where the framebuffer is, and how long.
  abbrev pub fb_place : ℕ
  fb_place = load64 k.console.machine.fb.mem (screen + 8)

  abbrev pub fb_bytes : ℕ
  fb_bytes =
      load32 k.console.machine.fb.mem (screen + 24) * load32 k.console.machine.fb.mem (screen + 16)

  abbrev pub mapped : Tables
  mapped = paging_map_fb image.fb_pd_address fb_place fb_bytes k.tables

  screen_reached :
      let fb1 = set_geometry screen k.console.machine.fb in
      reached image.fb_pd_address k.tables
        (paging_map_fb image.fb_pd_address (fb_get_addr fb1) (fb_get_size fb1) k.tables)
        (fb_get_addr fb1)
        (fb_get_size fb1)
      ≡ some mapped
  unfolding set_geometry
  screen_reached =
      let whole : u64 fb_bytes ≡ fb_bytes = omega (arith, loaded.placed) in
      rw whole (paging_map_fb-reached image.fb_pd_address fb_place fb_bytes k.tables loaded.placed)

  -- The run, once the terminal's steps are known to end.
  pub kernel_main_run :
      (fb2 fb3 : Fb) (d : Drive) (log : Log)
      → ata_init hw buf
          (fb_clear fb_black (fb_clear fb_black (set_geometry screen k.console.machine.fb)))
          k.console.machine.drive
          (pit_init hw (pic_init k.console.machine.log))
        ≡ some (fb2, d, log)
      → greet fb2 ≡ some fb3
      → (b : Kernel) × (kernel_main hw image fuel tags buf mbi k ≡ some b)
        × IsValid b.heap.pmm
        × (b.heap.pmm.pages_num ≡ total_pages (r ∷ rs))
        × (b.tables ≡ mapped)
        × (b.idt ≡ (idt_init image.handlers image.irq0 image.irq1 image.idt_address k.idt).0)
        × (b.console ≡ record k.console {
          machine = record k.console.machine {
            fb = fb3;
            pmm = b.heap.pmm;
            drive = d;
            log = keyboard_init hw log;
          };
        })
  unfolding kernel_main
  kernel_main_run fb2 fb3 d log found greeted =
      let (p, counted, total, valid) = pages_counted in
      let (laid, _) = screen_laid in
      let (heap, made, valid', kept) = heap_init_ends (record k.heap { pmm = p }) valid in
      rw (counted, laid, screen_reached, made, found, greeted)
        (_, refl, valid', kept ∙ total, refl, refl, refl)
