-- ===== src/Unikey/Charset/Tables.antt =====
-- The tables of vnlexi_tables.cpp in chromium-patches/unikey-payload/third_party/unikey: one entry for
-- each name of the Vietnamese alphabet, from `vnl_A` on.
use chromiumos_devenv.Common.{ℕ, List, [], ◌∷◌}

abbrev pub lexi_to_unicode : List ℕ
lexi_to_unicode =
    0x0041 ∷ 0x0061 ∷ 0x00C1 ∷ 0x00E1 ∷ 0x00C0 ∷ 0x00E0 ∷ 0x1EA2 ∷ 0x1EA3 ∷ 0x00C3 ∷ 0x00E3 ∷ 0x1EA0
    ∷ 0x1EA1 ∷ 0x00C2 ∷ 0x00E2 ∷ 0x1EA4 ∷ 0x1EA5 ∷ 0x1EA6 ∷ 0x1EA7 ∷ 0x1EA8 ∷ 0x1EA9 ∷ 0x1EAA
    ∷ 0x1EAB ∷ 0x1EAC ∷ 0x1EAD ∷ 0x0102 ∷ 0x0103 ∷ 0x1EAE ∷ 0x1EAF ∷ 0x1EB0 ∷ 0x1EB1 ∷ 0x1EB2
    ∷ 0x1EB3 ∷ 0x1EB4 ∷ 0x1EB5 ∷ 0x1EB6 ∷ 0x1EB7 ∷ 0x0042 ∷ 0x0062 ∷ 0x0043 ∷ 0x0063 ∷ 0x0044
    ∷ 0x0064 ∷ 0x0110 ∷ 0x0111 ∷ 0x0045 ∷ 0x0065 ∷ 0x00C9 ∷ 0x00E9 ∷ 0x00C8 ∷ 0x00E8 ∷ 0x1EBA
    ∷ 0x1EBB ∷ 0x1EBC ∷ 0x1EBD ∷ 0x1EB8 ∷ 0x1EB9 ∷ 0x00CA ∷ 0x00EA ∷ 0x1EBE ∷ 0x1EBF ∷ 0x1EC0
    ∷ 0x1EC1 ∷ 0x1EC2 ∷ 0x1EC3 ∷ 0x1EC4 ∷ 0x1EC5 ∷ 0x1EC6 ∷ 0x1EC7 ∷ 0x0046 ∷ 0x0066 ∷ 0x0047
    ∷ 0x0067 ∷ 0x0048 ∷ 0x0068 ∷ 0x0049 ∷ 0x0069 ∷ 0x00CD ∷ 0x00ED ∷ 0x00CC ∷ 0x00EC ∷ 0x1EC8
    ∷ 0x1EC9 ∷ 0x0128 ∷ 0x0129 ∷ 0x1ECA ∷ 0x1ECB ∷ 0x004A ∷ 0x006A ∷ 0x004B ∷ 0x006B ∷ 0x004C
    ∷ 0x006C ∷ 0x004D ∷ 0x006D ∷ 0x004E ∷ 0x006E ∷ 0x004F ∷ 0x006F ∷ 0x00D3 ∷ 0x00F3 ∷ 0x00D2
    ∷ 0x00F2 ∷ 0x1ECE ∷ 0x1ECF ∷ 0x00D5 ∷ 0x00F5 ∷ 0x1ECC ∷ 0x1ECD ∷ 0x00D4 ∷ 0x00F4 ∷ 0x1ED0
    ∷ 0x1ED1 ∷ 0x1ED2 ∷ 0x1ED3 ∷ 0x1ED4 ∷ 0x1ED5 ∷ 0x1ED6 ∷ 0x1ED7 ∷ 0x1ED8 ∷ 0x1ED9 ∷ 0x01A0
    ∷ 0x01A1 ∷ 0x1EDA ∷ 0x1EDB ∷ 0x1EDC ∷ 0x1EDD ∷ 0x1EDE ∷ 0x1EDF ∷ 0x1EE0 ∷ 0x1EE1 ∷ 0x1EE2
    ∷ 0x1EE3 ∷ 0x0050 ∷ 0x0070 ∷ 0x0051 ∷ 0x0071 ∷ 0x0052 ∷ 0x0072 ∷ 0x0053 ∷ 0x0073 ∷ 0x0054
    ∷ 0x0074 ∷ 0x0055 ∷ 0x0075 ∷ 0x00DA ∷ 0x00FA ∷ 0x00D9 ∷ 0x00F9 ∷ 0x1EE6 ∷ 0x1EE7 ∷ 0x0168
    ∷ 0x0169 ∷ 0x1EE4 ∷ 0x1EE5 ∷ 0x01AF ∷ 0x01B0 ∷ 0x1EE8 ∷ 0x1EE9 ∷ 0x1EEA ∷ 0x1EEB ∷ 0x1EEC
    ∷ 0x1EED ∷ 0x1EEE ∷ 0x1EEF ∷ 0x1EF0 ∷ 0x1EF1 ∷ 0x0056 ∷ 0x0076 ∷ 0x0057 ∷ 0x0077 ∷ 0x0058
    ∷ 0x0078 ∷ 0x0059 ∷ 0x0079 ∷ 0x00DD ∷ 0x00FD ∷ 0x1EF2 ∷ 0x1EF3 ∷ 0x1EF6 ∷ 0x1EF7 ∷ 0x1EF8
    ∷ 0x1EF9 ∷ 0x1EF4 ∷ 0x1EF5 ∷ 0x005A ∷ 0x007A ∷ []

abbrev pub no_tone : List ℕ
no_tone =
    0 ∷ 1 ∷ 0 ∷ 1 ∷ 0 ∷ 1 ∷ 0 ∷ 1 ∷ 0 ∷ 1 ∷ 0 ∷ 1 ∷ 12 ∷ 13 ∷ 12 ∷ 13 ∷ 12 ∷ 13 ∷ 12 ∷ 13 ∷ 12 ∷ 13
    ∷ 12 ∷ 13 ∷ 24 ∷ 25 ∷ 24 ∷ 25 ∷ 24 ∷ 25 ∷ 24 ∷ 25 ∷ 24 ∷ 25 ∷ 24 ∷ 25 ∷ 36 ∷ 37 ∷ 38 ∷ 39 ∷ 40
    ∷ 41 ∷ 42 ∷ 43 ∷ 44 ∷ 45 ∷ 44 ∷ 45 ∷ 44 ∷ 45 ∷ 44 ∷ 45 ∷ 44 ∷ 45 ∷ 44 ∷ 45 ∷ 56 ∷ 57 ∷ 56 ∷ 57
    ∷ 56 ∷ 57 ∷ 56 ∷ 57 ∷ 56 ∷ 57 ∷ 56 ∷ 57 ∷ 68 ∷ 69 ∷ 70 ∷ 71 ∷ 72 ∷ 73 ∷ 74 ∷ 75 ∷ 74 ∷ 75 ∷ 74
    ∷ 75 ∷ 74 ∷ 75 ∷ 74 ∷ 75 ∷ 74 ∷ 75 ∷ 86 ∷ 87 ∷ 88 ∷ 89 ∷ 90 ∷ 91 ∷ 92 ∷ 93 ∷ 94 ∷ 95 ∷ 96 ∷ 97
    ∷ 96 ∷ 97 ∷ 96 ∷ 97 ∷ 96 ∷ 97 ∷ 96 ∷ 97 ∷ 96 ∷ 97 ∷ 108 ∷ 109 ∷ 108 ∷ 109 ∷ 108 ∷ 109 ∷ 108
    ∷ 109 ∷ 108 ∷ 109 ∷ 108 ∷ 109 ∷ 120 ∷ 121 ∷ 120 ∷ 121 ∷ 120 ∷ 121 ∷ 120 ∷ 121 ∷ 120 ∷ 121 ∷ 120
    ∷ 121 ∷ 132 ∷ 133 ∷ 134 ∷ 135 ∷ 136 ∷ 137 ∷ 138 ∷ 139 ∷ 140 ∷ 141 ∷ 142 ∷ 143 ∷ 142 ∷ 143 ∷ 142
    ∷ 143 ∷ 142 ∷ 143 ∷ 142 ∷ 143 ∷ 142 ∷ 143 ∷ 154 ∷ 155 ∷ 154 ∷ 155 ∷ 154 ∷ 155 ∷ 154 ∷ 155 ∷ 154
    ∷ 155 ∷ 154 ∷ 155 ∷ 166 ∷ 167 ∷ 168 ∷ 169 ∷ 170 ∷ 171 ∷ 172 ∷ 173 ∷ 172 ∷ 173 ∷ 172 ∷ 173 ∷ 172
    ∷ 173 ∷ 172 ∷ 173 ∷ 172 ∷ 173 ∷ 184 ∷ 185 ∷ []

abbrev pub root_char : List ℕ
root_char =
    0 ∷ 1 ∷ 0 ∷ 1 ∷ 0 ∷ 1 ∷ 0 ∷ 1 ∷ 0 ∷ 1 ∷ 0 ∷ 1 ∷ 0 ∷ 1 ∷ 0 ∷ 1 ∷ 0 ∷ 1 ∷ 0 ∷ 1 ∷ 0 ∷ 1 ∷ 0 ∷ 1
    ∷ 0 ∷ 1 ∷ 0 ∷ 1 ∷ 0 ∷ 1 ∷ 0 ∷ 1 ∷ 0 ∷ 1 ∷ 0 ∷ 1 ∷ 36 ∷ 37 ∷ 38 ∷ 39 ∷ 40 ∷ 41 ∷ 42 ∷ 43 ∷ 44
    ∷ 45 ∷ 44 ∷ 45 ∷ 44 ∷ 45 ∷ 44 ∷ 45 ∷ 44 ∷ 45 ∷ 44 ∷ 45 ∷ 44 ∷ 45 ∷ 44 ∷ 45 ∷ 44 ∷ 45 ∷ 44 ∷ 45
    ∷ 44 ∷ 45 ∷ 44 ∷ 45 ∷ 68 ∷ 69 ∷ 70 ∷ 71 ∷ 72 ∷ 73 ∷ 74 ∷ 75 ∷ 74 ∷ 75 ∷ 74 ∷ 75 ∷ 74 ∷ 75 ∷ 74
    ∷ 75 ∷ 74 ∷ 75 ∷ 86 ∷ 87 ∷ 88 ∷ 89 ∷ 90 ∷ 91 ∷ 92 ∷ 93 ∷ 94 ∷ 95 ∷ 96 ∷ 97 ∷ 96 ∷ 97 ∷ 96 ∷ 97
    ∷ 96 ∷ 97 ∷ 96 ∷ 97 ∷ 96 ∷ 97 ∷ 96 ∷ 97 ∷ 96 ∷ 97 ∷ 96 ∷ 97 ∷ 96 ∷ 97 ∷ 96 ∷ 97 ∷ 96 ∷ 97 ∷ 96
    ∷ 97 ∷ 96 ∷ 97 ∷ 96 ∷ 97 ∷ 96 ∷ 97 ∷ 96 ∷ 97 ∷ 96 ∷ 97 ∷ 132 ∷ 133 ∷ 134 ∷ 135 ∷ 136 ∷ 137 ∷ 138
    ∷ 139 ∷ 140 ∷ 141 ∷ 142 ∷ 143 ∷ 142 ∷ 143 ∷ 142 ∷ 143 ∷ 142 ∷ 143 ∷ 142 ∷ 143 ∷ 142 ∷ 143 ∷ 142
    ∷ 143 ∷ 142 ∷ 143 ∷ 142 ∷ 143 ∷ 142 ∷ 143 ∷ 142 ∷ 143 ∷ 142 ∷ 143 ∷ 166 ∷ 167 ∷ 168 ∷ 169 ∷ 170
    ∷ 171 ∷ 172 ∷ 173 ∷ 172 ∷ 173 ∷ 172 ∷ 173 ∷ 172 ∷ 173 ∷ 172 ∷ 173 ∷ 172 ∷ 173 ∷ 184 ∷ 185 ∷ []

abbrev pub lexi_count : ℕ
lexi_count = 186
