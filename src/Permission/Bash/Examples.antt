-- ===== src/Permission/Bash/Examples.antt =====
-- The theorems on `bash_pattern_authorizes` at concrete inputs.
use hai_code.Permission.Bash.Split.{ends_amp}
use hai_code.Base.{inr, Bytes, ◌≡◌, refl, Bool, ◌&&◌, ◌∷◌, ◌++◌, codes, eq, starts_with}
use hai_code.Permission.Bash.{bash_pattern_authorizes}
use hai_code.Permission.Bash.Quoting.{ends_outside}
use hai_code.Permission.Bash.Substitution.{first}
use hai_code.Permission.Bash.Authorize.{
  bash_pattern_authorizes-semicolon, bash_pattern_authorizes-substitution,
}

-- What the pattern `make*` matches.
made : Bytes → Bytes → Bool
made pattern text = starts_with (codes "make") text

bash_pattern_authorizes-semicolon_example :
    bash_pattern_authorizes made (codes "make*") (codes "make 'a;b'" ++ b';' ∷ codes " rm -rf ~")
    ≡ (bash_pattern_authorizes made (codes "make*") (codes "make 'a;b'")
        && bash_pattern_authorizes made (codes "make*") (codes " rm -rf ~"))
unfolding ends_outside ends_amp
bash_pattern_authorizes-semicolon_example =
    bash_pattern_authorizes-semicolon made (codes "make*") (codes "make 'a;b'") (codes " rm -rf ~")
      refl refl

bash_pattern_authorizes-substitution_example :
    bash_pattern_authorizes made (codes "make*") (codes "make " ++ b'$' ∷ codes "(rm -rf ~)")
    ≡ eq (codes "make*") (codes "*")
unfolding ends_outside first
bash_pattern_authorizes-substitution_example =
    bash_pattern_authorizes-substitution made (codes "make*") (codes "make ") b'$'
      (codes "(rm -rf ~)") refl (inr (refl, refl))
