-- ===== src/Client/Keys.antt =====
-- The key codes of the keyboard, and the keys that it has, in the order in which it asks for them
-- (vuinputd-tests/src/devices/keyboard.rs).
use vuinputd.Prelude.{ℕ, List, [], ◌∷◌}

pub data Key : Type 0 where
  key_esc key_1 key_2 key_3 key_4 key_5 key_6 key_7 key_8 key_9 key_0 key_minus key_equal : Key
  key_backspace key_tab key_q key_w key_e key_r key_t key_y key_u key_i key_o key_p : Key
  key_leftbrace key_rightbrace key_enter key_leftctrl key_a key_s key_d key_f key_g key_h key_j :
      Key
  key_k key_l key_semicolon key_apostrophe key_grave key_leftshift key_backslash key_z key_x : Key
  key_c key_v key_b key_n key_m key_comma key_dot key_slash key_rightshift key_kpasterisk : Key
  key_leftalt key_space key_capslock key_f1 key_f2 key_f3 key_f4 key_f5 key_f6 key_f7 key_f8 : Key
  key_f9 key_f10 key_numlock key_scrolllock key_kp7 key_kp8 key_kp9 key_kpminus key_kp4 key_kp5 :
      Key
  key_kp6 key_kpplus key_kp1 key_kp2 key_kp3 key_kp0 key_kpdot key_zenkakuhankaku key_102nd : Key
  key_f11 key_f12 key_ro key_katakana key_hiragana key_henkan key_katakanahiragana key_muhenkan :
      Key
  key_kpjpcomma key_kpenter key_rightctrl key_kpslash key_sysrq key_rightalt key_linefeed : Key
  key_home key_up key_pageup key_left key_right key_end key_down key_pagedown key_insert : Key
  key_delete : Key

-- The constants.
unfoldable pub code : Key → ℕ
code key_esc = 1
code key_1 = 2
code key_2 = 3
code key_3 = 4
code key_4 = 5
code key_5 = 6
code key_6 = 7
code key_7 = 8
code key_8 = 9
code key_9 = 10
code key_0 = 11
code key_minus = 12
code key_equal = 13
code key_backspace = 14
code key_tab = 15
code key_q = 16
code key_w = 17
code key_e = 18
code key_r = 19
code key_t = 20
code key_y = 21
code key_u = 22
code key_i = 23
code key_o = 24
code key_p = 25
code key_leftbrace = 26
code key_rightbrace = 27
code key_enter = 28
code key_leftctrl = 29
code key_a = 30
code key_s = 31
code key_d = 32
code key_f = 33
code key_g = 34
code key_h = 35
code key_j = 36
code key_k = 37
code key_l = 38
code key_semicolon = 39
code key_apostrophe = 40
code key_grave = 41
code key_leftshift = 42
code key_backslash = 43
code key_z = 44
code key_x = 45
code key_c = 46
code key_v = 47
code key_b = 48
code key_n = 49
code key_m = 50
code key_comma = 51
code key_dot = 52
code key_slash = 53
code key_rightshift = 54
code key_kpasterisk = 55
code key_leftalt = 56
code key_space = 57
code key_capslock = 58
code key_f1 = 59
code key_f2 = 60
code key_f3 = 61
code key_f4 = 62
code key_f5 = 63
code key_f6 = 64
code key_f7 = 65
code key_f8 = 66
code key_f9 = 67
code key_f10 = 68
code key_numlock = 69
code key_scrolllock = 70
code key_kp7 = 71
code key_kp8 = 72
code key_kp9 = 73
code key_kpminus = 74
code key_kp4 = 75
code key_kp5 = 76
code key_kp6 = 77
code key_kpplus = 78
code key_kp1 = 79
code key_kp2 = 80
code key_kp3 = 81
code key_kp0 = 82
code key_kpdot = 83
code key_zenkakuhankaku = 85
code key_102nd = 86
code key_f11 = 87
code key_f12 = 88
code key_ro = 89
code key_katakana = 90
code key_hiragana = 91
code key_henkan = 92
code key_katakanahiragana = 93
code key_muhenkan = 94
code key_kpjpcomma = 95
code key_kpenter = 96
code key_rightctrl = 97
code key_kpslash = 98
code key_sysrq = 99
code key_rightalt = 100
code key_linefeed = 101
code key_home = 102
code key_up = 103
code key_pageup = 104
code key_left = 105
code key_right = 106
code key_end = 107
code key_down = 108
code key_pagedown = 109
code key_insert = 110
code key_delete = 111

unfoldable pub all_keys : List Key
all_keys =
    key_esc ∷ key_1 ∷ key_2 ∷ key_3 ∷ key_4 ∷ key_5 ∷ key_6 ∷ key_7 ∷ key_8 ∷ key_9 ∷ key_0
    ∷ key_minus ∷ key_equal ∷ key_backspace ∷ key_tab ∷ key_q ∷ key_w ∷ key_e ∷ key_r ∷ key_t
    ∷ key_y ∷ key_u ∷ key_i ∷ key_o ∷ key_p ∷ key_leftbrace ∷ key_rightbrace ∷ key_enter
    ∷ key_leftctrl ∷ key_a ∷ key_s ∷ key_d ∷ key_f ∷ key_g ∷ key_h ∷ key_j ∷ key_k ∷ key_l
    ∷ key_semicolon ∷ key_apostrophe ∷ key_grave ∷ key_leftshift ∷ key_backslash ∷ key_z ∷ key_x
    ∷ key_c ∷ key_v ∷ key_b ∷ key_n ∷ key_m ∷ key_comma ∷ key_dot ∷ key_slash ∷ key_rightshift
    ∷ key_kpasterisk ∷ key_leftalt ∷ key_space ∷ key_capslock ∷ key_f1 ∷ key_f2 ∷ key_f3 ∷ key_f4
    ∷ key_f5 ∷ key_f6 ∷ key_f7 ∷ key_f8 ∷ key_f9 ∷ key_f10 ∷ key_f11 ∷ key_f12 ∷ key_numlock
    ∷ key_scrolllock ∷ key_kp7 ∷ key_kp8 ∷ key_kp9 ∷ key_kpminus ∷ key_kp4 ∷ key_kp5 ∷ key_kp6
    ∷ key_kpplus ∷ key_kp1 ∷ key_kp2 ∷ key_kp3 ∷ key_kp0 ∷ key_kpdot ∷ key_kpenter ∷ key_kpslash
    ∷ key_kpjpcomma ∷ key_home ∷ key_up ∷ key_pageup ∷ key_left ∷ key_right ∷ key_end ∷ key_down
    ∷ key_pagedown ∷ key_insert ∷ key_delete ∷ key_rightctrl ∷ key_rightalt ∷ key_zenkakuhankaku
    ∷ key_102nd ∷ key_ro ∷ key_katakana ∷ key_hiragana ∷ key_henkan ∷ key_katakanahiragana
    ∷ key_muhenkan ∷ key_linefeed ∷ key_sysrq ∷ []
