-- ===== src/SametimeList/Laws/Loading.antt =====
-- A stored line is one line, and its version is read as it was written.
use meanwhile.Base.{
  ℕ, ◌≡◌, refl, sym, ap, ◌∙◌, arith, Bool, true, false, ◌||◌, List, [], ◌∷◌, ◌++◌, append-nil, ◌==◌,
  All, All-append, ◌^◌, ◌<◌,
}
use meanwhile.SametimeList.{
  GroupType, UserType, user_unknown, user_normal, user_external, SametimeList,
}
use meanwhile.SametimeList.Scan.{scan_number, print_number, read_digits, scan_literal}
use meanwhile.SametimeList.Scan.Laws.{IsWordChar}
use meanwhile.SametimeList.Scan.Numbers.{IsDigit, digits_of-digits, Stops, scan-print_number}
use meanwhile.SametimeList.Store.{
  user_type_to_char, group_type_to_char, open_char, group_line, user_line, version_line,
}
use meanwhile.SametimeList.Load.{with_major, with_minor, with_micro, to_end, get_version}
use meanwhile.SametimeList.Laws.Lines.{type-IsWordChar}

dot-Stops : (t : List ℕ) → Stops (46 ∷ t)
unfolding read_digits
dot-Stops t n = refl

end-Stops : Stops []
unfolding read_digits
end-Stops n = refl

pub get_version-line :
    (l m : SametimeList)
    → l.ver_major < 2 ^ 32
    → l.ver_minor < 2 ^ 32
    → l.ver_micro < 2 ^ 32
    → get_version (version_line l) m
      ≡ record m { ver_major = l.ver_major; ver_minor = l.ver_minor; ver_micro = l.ver_micro }
unfolding get_version version_line scan_literal
get_version-line l m a b c =
    let last = 46 ∷ print_number l.ver_micro in
    let first =
      scan-print_number l.ver_major (46 ∷ (print_number l.ver_minor ++ last)) a (dot-Stops _) in
    let second = scan-print_number l.ver_minor last b (dot-Stops _) in
    let third = scan-print_number l.ver_micro [] c end-Stops in
    let read =
      ap with_major first
      ∙ ap (with_minor l.ver_major) second
      ∙ ap (λ (cs : List ℕ). with_micro l.ver_major l.ver_minor (scan_number cs))
          (sym (append-nil (print_number l.ver_micro)))
      ∙ ap (with_micro l.ver_major l.ver_minor) third in
    ap (λ (v : ℕ × ℕ × ℕ). record m { ver_major = v.0; ver_minor = v.1; ver_micro = v.2 }) read

-- A character that does not end a line.
abbrev pub IsInLine : ℕ → Type 0
IsInLine c = (c == 10 || c == 13) ≡ false

word-IsInLine : (c : ℕ) → IsWordChar c → IsInLine c
word-IsInLine c h = ground (arith, h)

words-IsInLine : (cs : List ℕ) → All IsWordChar cs → All IsInLine cs
words-IsInLine [] h = h
words-IsInLine (c ∷ cs) h = (word-IsInLine c h.0, words-IsInLine cs h.1)

pub to_end-line : (cs rest : List ℕ) → All IsInLine cs → to_end (cs ++ (13 ∷ rest)) ≡ (cs, rest)
unfolding to_end
to_end-line [] rest h = refl
to_end-line (c ∷ cs) rest h = rw (h.0, to_end-line cs rest h.1) refl

open-IsInLine : (is_open : Bool) → IsInLine (open_char is_open)
open-IsInLine true = refl
open-IsInLine false = refl

user_type-IsInLine : (type_ : UserType) → IsInLine (user_type_to_char type_)
user_type-IsInLine user_unknown = refl
user_type-IsInLine user_normal = refl
user_type-IsInLine user_external = refl

digit-IsInLine : (c : ℕ) → IsDigit c → IsInLine c
digit-IsInLine c h = ground (arith, h)

pub group_line-IsInLine :
    (name alias : List ℕ) (type_ : GroupType) (is_open : Bool)
    → All IsWordChar name
    → All IsWordChar alias
    → All IsInLine (group_line name type_ alias is_open)
unfolding group_line
group_line-IsInLine name alias type_ is_open h k =
    let chars : IsInLine (group_type_to_char type_) × IsInLine (open_char is_open) =
      (word-IsInLine (group_type_to_char type_) (type-IsWordChar type_), open-IsInLine is_open) in
    (
      refl,
      (
        refl,
        All-append IsInLine name
            ((group_type_to_char type_ ∷ 32 ∷ alias) ++ (32 ∷ open_char is_open ∷ []))
            (words-IsInLine name h)
            (
              chars.0,
              (
                refl,
                All-append IsInLine alias (32 ∷ open_char is_open ∷ []) (words-IsInLine alias k)
                    (refl, (chars.1, tt)),
              ),
            ),
      ),
    )

pub user_line-IsInLine :
    (id : List ℕ) (type_ : UserType) (names : List ℕ × List ℕ)
    → All IsWordChar id
    → All IsWordChar names.0
    → All IsWordChar names.1
    → All IsInLine (user_line id type_ names)
unfolding user_line
user_line-IsInLine id type_ names h k m = (
  refl,
  (
    refl,
    All-append IsInLine id ((user_type_to_char type_ ∷ 58 ∷ 58 ∷ 32 ∷ names.0) ++ (44 ∷ names.1))
        (words-IsInLine id h)
        (
          user_type-IsInLine type_,
          (
            refl,
            (
              refl,
              (
                refl,
                All-append IsInLine names.0 (44 ∷ names.1) (words-IsInLine names.0 k)
                    (refl, words-IsInLine names.1 m),
              ),
            ),
          ),
        ),
  ),
)

digits-IsInLine : (ds : List ℕ) → All IsDigit ds → All IsInLine ds
digits-IsInLine [] h = h
digits-IsInLine (d ∷ ds) h = (digit-IsInLine d h.0, digits-IsInLine ds h.1)

pub version_line-IsInLine : (l : SametimeList) → All IsInLine (version_line l)
unfolding version_line
version_line-IsInLine l =
    let part : (v : ℕ) → All IsInLine (print_number v) =
      λ v. digits-IsInLine (print_number v) (digits_of-digits 10 v) in
    let minor_on =
      All-append IsInLine (print_number l.ver_minor) (46 ∷ print_number l.ver_micro)
        (part l.ver_minor) (refl, part l.ver_micro) in
    (
      refl,
      (
        refl,
        (
          refl,
          (
            refl,
            (
              refl,
              (
                refl,
                (
                  refl,
                  (
                    refl,
                    All-append IsInLine (print_number l.ver_major)
                        (46 ∷ (print_number l.ver_minor ++ (46 ∷ print_number l.ver_micro)))
                        (part l.ver_major) (refl, minor_on),
                  ),
                ),
              ),
            ),
          ),
        ),
      ),
    )
