-- ===== src/Sysinfo/Local/Tests.antt =====
-- What the device types read, at concrete files.
use steamos_log_submitter.Base.{
  true, false, [], ◌∷◌, some, codes, begins_with, from_last, ok, ◌≡◌, refl,
}
use steamos_log_submitter.Util.Release.{strip}
use steamos_log_submitter.Sysinfo.Local.{
  is_card, digits_dash, get_ram, ram_loop, get_vram, vram_loop,
}

cards : is_card (codes "card0-eDP-1") ≡ true
unfolding is_card digits_dash begins_with
cards = refl

no_card : is_card (codes "card0") ≡ false
unfolding is_card digits_dash begins_with
no_card = refl

ram :
    get_ram (
      ok (
        codes "MemTotal:       16 kB\n" ∷ codes "MemFree: 3 kB\n" ∷ codes "SwapTotal: 8 kB\n" ∷ []))
    ≡ record { mem = some (codes "16 kB"); swap = some (codes "8 kB") }
unfolding get_ram ram_loop begins_with from_last strip
ram = refl

vram :
    get_vram
      (ok (codes "Memory info (GL_NVX_gpu_memory_info):\n" ∷ codes "    Dedicated: 512 MB\n" ∷ []))
    ≡ some (codes "512 MB")
unfolding get_vram vram_loop begins_with from_last strip
vram = refl
