-- ===== src/Ata/Read.antt =====
-- Reading sectors (kernel/ata.c) from a drive that keeps to the description of its registers.
