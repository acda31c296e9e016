-- ===== src/Fb/Font.antt =====
-- The font of include/font.h, 256 glyphs of sixteen bytes, one for each row of eight pixels. A glyph
-- is the number whose bytes are its rows, the top row first.
use jordan_os.Base.{ℕ, zero, suc, ◌-◌, ◌*◌, ◌/◌, ◌%◌, ◌^◌, List, [], ◌∷◌, ◌++◌}

-- Glyphs 0 to 86.
abbrev glyphs_low : List ℕ
glyphs_low =
    0x0000007e8199a5a1a599817e00000000 ∷ 0x0000007e81b9a5b9a9a5817e00000000
    ∷ 0x00003c424242427e4242424202040300 ∷ 0x00000000003c023e4242423e02040300
    ∷ 0x0000000010387cfe7c38100000000000 ∷ 0x0000020f023e42424242423e00000000
    ∷ 0x00007e40404078404040407e02040300 ∷ 0x000000000000183c3c18000000000000
    ∷ 0x0000fb55555100000000000000000000 ∷ 0x00000000443844444438440000000000
    ∷ 0x00001010101000001010101000000000 ∷ 0x24240000000000000000000000000000
    ∷ 0x08100000000000000000000000000000 ∷ 0x00000000000000000000000010102000
    ∷ 0x0810003c4242427e4242424200000000 ∷ 0x1824003c4242427e4242424200000000
    ∷ 0x2424007e404040784040407e00000000 ∷ 0x08100038101010101010103800000000
    ∷ 0x18240038101010101010103800000000 ∷ 0x0810003c424242424242423c00000000
    ∷ 0x00007e92929292721212121200000000 ∷ 0x00384440304844442418044438000000
    ∷ 0x1824003c424242424242423c00000000 ∷ 0x00000000004224181824420000000000
    ∷ 0x00001038541010101010101000000000 ∷ 0x00001010101010101054381000000000
    ∷ 0x00000000000804fe0408000000000000 ∷ 0x00000000002040fe4020000000000000
    ∷ 0x08104242424242424242423c00000000 ∷ 0x08108282444428101010101000000000
    ∷ 0x00000810004242424242423e02023c00 ∷ 0x2418003c4242427e4242424200000000
    ∷ 0x00000000000000000000000000000000 ∷ 0x00001010101010101000101000000000
    ∷ 0x00242424000000000000000000000000 ∷ 0x00002424247e24247e24242400000000
    ∷ 0x0010107c9290907c1212927c10100000 ∷ 0x0000649468081010202c524c00000000
    ∷ 0x000018242418304a4444443a00000000 ∷ 0x00101010000000000000000000000000
    ∷ 0x00000810202020202020100800000000 ∷ 0x00002010080808080808102000000000
    ∷ 0x000000000024187e1824000000000000 ∷ 0x000000000010107c1010000000000000
    ∷ 0x00000000000000000000101020000000 ∷ 0x000000000000007e0000000000000000
    ∷ 0x00000000000000000000101000000000 ∷ 0x00000404080810102020404000000000
    ∷ 0x00003c4242464a526242423c00000000 ∷ 0x00000818280808080808083e00000000
    ∷ 0x00003c42420204081020407e00000000 ∷ 0x00003c4242021c020242423c00000000
    ∷ 0x000002060a1222427e02020200000000 ∷ 0x00007e4040407c020202423c00000000
    ∷ 0x00001c2040407c424242423c00000000 ∷ 0x00007e02020404080810101000000000
    ∷ 0x00003c4242423c424242423c00000000 ∷ 0x00003c424242423e0202043800000000
    ∷ 0x00000000001010000000101000000000 ∷ 0x00000000001010000000101020000000
    ∷ 0x00000004081020402010080400000000 ∷ 0x00000000007e00007e00000000000000
    ∷ 0x00000040201008040810204000000000 ∷ 0x00003c42424204080800080800000000
    ∷ 0x00007c829ea2a2a2a69a807e00000000 ∷ 0x00003c424242427e4242424200000000
    ∷ 0x00007c4242427c424242427c00000000 ∷ 0x00003c42424040404042423c00000000
    ∷ 0x00007844424242424242447800000000 ∷ 0x00007e40404078404040407e00000000
    ∷ 0x00007e40404078404040404000000000 ∷ 0x00003c424240404e4242423c00000000
    ∷ 0x0000424242427e424242424200000000 ∷ 0x00003810101010101010103800000000
    ∷ 0x00000e04040404040444443800000000 ∷ 0x00004244485060605048444200000000
    ∷ 0x00004040404040404040407e00000000 ∷ 0x000082c6aa9292828282828200000000
    ∷ 0x000042424262524a4642424200000000 ∷ 0x00003c42424242424242423c00000000
    ∷ 0x00007c424242427c4040404000000000 ∷ 0x00003c424242424242424a3c02000000
    ∷ 0x00007c424242427c5048444200000000 ∷ 0x00003c4240403c020242423c00000000
    ∷ 0x0000fe10101010101010101000000000 ∷ 0x00004242424242424242423c00000000
    ∷ 0x00004242424242242424181800000000 ∷ []

-- Glyphs 87 to 173.
abbrev glyphs_middle : List ℕ
glyphs_middle =
    0x000082828282829292aac68200000000 ∷ 0x00004242242418182424424200000000
    ∷ 0x00008282444428101010101000000000 ∷ 0x00007e02020408102040407e00000000
    ∷ 0x00003820202020202020203800000000 ∷ 0x00004040202010100808040400000000
    ∷ 0x00003808080808080808083800000000 ∷ 0x00102844000000000000000000000000
    ∷ 0x000000000000000000000000007e0000 ∷ 0x10080000000000000000000000000000
    ∷ 0x00000000003c023e4242423e00000000 ∷ 0x00004040407c42424242427c00000000
    ∷ 0x00000000003c42404040423c00000000 ∷ 0x00000202023e42424242423e00000000
    ∷ 0x00000000003c42427e40403c00000000 ∷ 0x00000e10107c10101010101000000000
    ∷ 0x00000000003e42424242423e02023c00 ∷ 0x00004040407c42424242424200000000
    ∷ 0x00001010003010101010103800000000 ∷ 0x00000404000c04040404040444443800
    ∷ 0x00004040404244487048444200000000 ∷ 0x00003010101010101010103800000000
    ∷ 0x0000000000fc92929292929200000000 ∷ 0x00000000007c42424242424200000000
    ∷ 0x00000000003c42424242423c00000000 ∷ 0x00000000007c42424242427c40404000
    ∷ 0x00000000003e42424242423e02020200 ∷ 0x00000000005e60404040404000000000
    ∷ 0x00000000003e40403c02027c00000000 ∷ 0x00001010107c10101010100e00000000
    ∷ 0x00000000004242424242423e00000000 ∷ 0x00000000004242422424181800000000
    ∷ 0x00000000008282929292927c00000000 ∷ 0x00000000004242241824424200000000
    ∷ 0x00000000004242424242423e02023c00 ∷ 0x00000000007e04081020407e00000000
    ∷ 0x00000c10101020101010100c00000000 ∷ 0x00001010101010101010101000000000
    ∷ 0x00003008080804080808083000000000 ∷ 0x00000000000062928c00000000000000
    ∷ 0x00002418003c023e4242423e00000000 ∷ 0x00003c42424040404042423c10102000
    ∷ 0x00002424004242424242423e00000000 ∷ 0x00000810003c42427e40403c00000000
    ∷ 0x00001824003c023e4242423e00000000 ∷ 0x00002424003c023e4242423e00000000
    ∷ 0x00001008003c023e4242423e00000000 ∷ 0x0810003c424240404042423c00000000
    ∷ 0x00000000003c42404040423c10102000 ∷ 0x00001824003c42427e40403c00000000
    ∷ 0x00002424003c42427e40403c00000000 ∷ 0x00001008003c42427e40403c00000000
    ∷ 0x00000810003c42404040423c00000000 ∷ 0x00003048003010101010103800000000
    ∷ 0x2418003c424240404042423c00000000 ∷ 0x2424003c4242427e4242424200000000
    ∷ 0x00002418003c42404040423c00000000 ∷ 0x0810007e404040784040407e00000000
    ∷ 0x24180078444242424242447800000000 ∷ 0x24180202023e42424242423e00000000
    ∷ 0x00001824003c42424242423c00000000 ∷ 0x00002424003c42424242423c00000000
    ∷ 0x000078444242f2424242447800000000 ∷ 0x00000000003c42427e40403c08100c00
    ∷ 0x2418007e404040784040407e00000000 ∷ 0x00002418003c42427e40403c00000000
    ∷ 0x2424003c424242424242423c00000000 ∷ 0x24240042424242424242423c00000000
    ∷ 0x20400040404040404040407e00000000 ∷ 0x00001824202078202020227e00000000
    ∷ 0x08100030101010101010103800000000 ∷ 0x24184040404040404040407e00000000
    ∷ 0x48300030101010101010103800000000 ∷ 0x00000810003c023e4242423e00000000
    ∷ 0x00000810003010101010103800000000 ∷ 0x00000810003c42424242423c00000000
    ∷ 0x00000810004242424242423e00000000 ∷ 0x0000324c007c42424242424200000000
    ∷ 0x324c00424262524a4642424200000000 ∷ 0x00004040404060c04040407e00000000
    ∷ 0x00003010101018301010103800000000 ∷ 0x00001010001010204242423c00000000
    ∷ 0x081042424262524a4642424200000000 ∷ 0x00000000007e02020200000000000000
    ∷ 0x00000810007c42424242424200000000 ∷ 0x241842424262524a4642424200000000
    ∷ 0x00001010001010101010101000000000 ∷ []

-- Glyphs 174 to 255.
abbrev glyphs_high : List ℕ
glyphs_high =
    0x00000000001224489048241200000000 ∷ 0x00000000009048241224489000000000
    ∷ 0x88228822882288228822882288228822 ∷ 0xaa55aa55aa55aa55aa55aa55aa55aa55
    ∷ 0x00002418007c42424242424200000000 ∷ 0x10101010101010101010101010101010
    ∷ 0x10101010101010f01010101010101010 ∷ 0x1224003c424242424242423c00000000
    ∷ 0x00001224003c42424242423c00000000 ∷ 0x0810007c4242427c5048444200000000
    ∷ 0x00000810005e60404040404000000000 ∷ 0x2418007c4242427c5048444200000000
    ∷ 0x00002418005e60404040404000000000 ∷ 0x0810003c4240403c0202423c00000000
    ∷ 0x00000408003e40403c02027c00000000 ∷ 0x00003c4240403c020242423c10102000
    ∷ 0x00000000003e40403c02027c10102000 ∷ 0x00000000000000f01010101010101010
    ∷ 0x101010101010101f0000000000000000 ∷ 0x10101010101010ff0000000000000000
    ∷ 0x00000000000000ff1010101010101010 ∷ 0x101010101010101f1010101010101010
    ∷ 0x00000000000000ff0000000000000000 ∷ 0x10101010101010ff1010101010101010
    ∷ 0x2418003c4240403c0202423c00000000 ∷ 0x00002418003e40403c02027c00000000
    ∷ 0x0000fe10101010101010101008081000 ∷ 0x00001010107c10101010100e04040800
    ∷ 0x241800fe101010101010101000000000 ∷ 0x24180010107c10101010100e00000000
    ∷ 0x18241842424242424242423c00000000 ∷ 0x00001824184242424242423e00000000
    ∷ 0x12240042424242424242423c00000000 ∷ 0x00001224004242424242423e00000000
    ∷ 0x0810007e020408102040407e00000000 ∷ 0x00000810007e04081020407e00000000
    ∷ 0x1010007e020408102040407e00000000 ∷ 0x00001010007e04081020407e00000000
    ∷ 0x2418007e020408102040407e00000000 ∷ 0x00002418007e04081020407e00000000
    ∷ 0x00003c4240403c020242423c00101020 ∷ 0x00000000003e40403c02027c00101020
    ∷ 0x0000fe10101010101010101000101020 ∷ 0x10101010101010f00000000000000000
    ∷ 0x000000000000001f1010101010101010 ∷ 0xffffffffffffffffffffffffffffffff
    ∷ 0x00001010107c10101010100e00040408 ∷ 0x24180000000000000000000000000000
    ∷ 0x24180000000000000000000000000000 ∷ 0x10100000000000000000000000000000
    ∷ 0x00000000000000000000000008100c00 ∷ 0x0000384444487c424242625c00000000
    ∷ 0x12240000000000000000000000000000 ∷ 0x00000000007e42424242424200000000
    ∷ 0x00000000000000fe0000000000000000 ∷ 0x00081010000000000000000000000000
    ∷ 0x00000000004242424242467a40404000 ∷ 0x00080810000000000000000000000000
    ∷ 0x00000000000000000000080810000000 ∷ 0x00122424000000000000000000000000
    ∷ 0x00121224000000000000000000000000 ∷ 0x00000000000000000000242448000000
    ∷ 0x000010107c1010101010101000000000 ∷ 0x000010107c101010107c101000000000
    ∷ 0x00000000000000000000929200000000 ∷ 0x000048a8501020204054aa9400000000
    ∷ 0x00000000000408102010080400000000 ∷ 0x000000000010107c1010007c00000000
    ∷ 0x00000020100804081020007c00000000 ∷ 0x00000004081020100804003e00000000
    ∷ 0x00000000002010080408102000000000 ∷ 0x0000001c2240f840f840221c00000000
    ∷ 0x000000001010007c0010100000000000 ∷ 0x0000000000324c00324c000000000000
    ∷ 0x00182424180000000000000000000000 ∷ 0x00000000027e08107e40000000000000
    ∷ 0x00000000000000101000000000000000 ∷ 0x0000969696d0f0f0b096909600000000
    ∷ 0x1008003c4242427e4242424200000000 ∷ 0x1008007e404040784040407e00000000
    ∷ 0x00000000003c3c3c3c3c3c0000000000 ∷ 0x1824007e404040784040407e00000000 ∷ []

abbrev get_glyph : List ℕ → ℕ → ℕ
get_glyph [] n = 0
get_glyph (g ∷ glyphs) zero = g
get_glyph (g ∷ glyphs) (suc n) = get_glyph glyphs n

-- `font_glyphs[i]`
unfoldable pub font_glyphs : ℕ → ℕ
font_glyphs i =
    get_glyph (glyphs_low ++ glyphs_middle ++ glyphs_high) (i / 16)
    / 2 ^ (8 * (15 - i % 16))
    % 2 ^ 8
