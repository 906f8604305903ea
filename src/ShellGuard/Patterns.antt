-- ===== src/ShellGuard/Patterns.antt =====
-- src/omnicursor/shell_guard.py: the two tables of patterns, each pattern with its source text.
use omnicursor.Prelude.{List, [], ◌∷◌}
use omnicursor.Text.{Text, codes}
use omnicursor.Regex.{
  Regex, alt, star, bound, at_end, plus, opt, chr, chr_i, lit, lit_i, dot, space, non_space, cat,
}

-- A compiled pattern, with `pattern.pattern`.
pub record Pattern : Type 0 where
  pub source : Text
  pub regex : Regex

pub record Warning : Type 0 where
  pub pattern : Pattern
  pub reason : Text

-- `rm\s+-[^\s]*r[^\s]*f[^\s]*\s+`
unfoldable pub rm_force : Regex
rm_force = cat (
    lit_i (codes "rm")
    ∷ plus space
    ∷ chr b'-'
    ∷ star non_space
    ∷ chr_i b'r'
    ∷ star non_space
    ∷ chr_i b'f'
    ∷ star non_space
    ∷ plus space
    ∷ [])

unfoldable pub hard_block : List Pattern
unfolding rm_force
hard_block =
    record {
      source = codes "rm\\s+-[^\\s]*r[^\\s]*f[^\\s]*\\s+/\\s*$";
      regex = cat (rm_force ∷ chr b'/' ∷ star space ∷ at_end ∷ []);
    }
    ∷ record {
      source = codes "rm\\s+-[^\\s]*r[^\\s]*f[^\\s]*\\s+~/?\\s*$";
      regex = cat (rm_force ∷ chr b'~' ∷ opt (chr b'/') ∷ star space ∷ at_end ∷ []);
    }
    ∷ record {
      source = codes "rm\\s+-[^\\s]*r[^\\s]*f[^\\s]*\\s+/\\*";
      regex = cat (rm_force ∷ lit (codes "/*") ∷ []);
    }
    ∷ record {
      source = codes "\\bmkfs\\b";
      regex = cat (bound ∷ lit_i (codes "mkfs") ∷ bound ∷ []);
    }
    ∷ record {
      source = codes "\\bdd\\s+if=.*\\s+of=/dev/";
      regex = cat (
          bound
          ∷ lit_i (codes "dd")
          ∷ plus space
          ∷ lit_i (codes "if=")
          ∷ star dot
          ∷ plus space
          ∷ lit_i (codes "of=/dev/")
          ∷ []);
    }
    ∷ record {
      source = codes ":\\(\\)\\s*\\{\\s*:\\|:&\\s*\\}\\s*;:";
      regex = cat (
          lit (codes ":()")
          ∷ star space
          ∷ chr 123
          ∷ star space
          ∷ lit (codes ":|:&")
          ∷ star space
          ∷ chr 125
          ∷ star space
          ∷ lit (codes ";:")
          ∷ []);
    }
    ∷ record { source = codes "--no-verify"; regex = lit_i (codes "--no-verify") }
    ∷ record {
      source = codes ">\\s*/dev/sda";
      regex = cat (chr b'>' ∷ star space ∷ lit_i (codes "/dev/sda") ∷ []);
    }
    ∷ record {
      source = codes "base64\\s+--decode\\s*\\|.*\\bsh\\b";
      regex = cat (
          lit_i (codes "base64")
          ∷ plus space
          ∷ lit_i (codes "--decode")
          ∷ star space
          ∷ chr b'|'
          ∷ star dot
          ∷ bound
          ∷ lit_i (codes "sh")
          ∷ bound
          ∷ []);
    }
    ∷ []

-- `curl\s+.*\|\s*(ba)?sh`, and the same of wget
piped_to_shell : Text → Regex
piped_to_shell tool = cat (
    lit_i tool
    ∷ plus space
    ∷ star dot
    ∷ chr b'|'
    ∷ star space
    ∷ opt (lit_i (codes "ba"))
    ∷ lit_i (codes "sh")
    ∷ [])

-- `\bword\b`
whole_word : Text → Regex
whole_word w = cat (bound ∷ lit_i w ∷ bound ∷ [])

-- two words with blanks between
spaced : Text → Text → Regex
spaced v w = cat (lit_i v ∷ plus space ∷ lit_i w ∷ [])

unfoldable pub soft_warn : List Warning
unfolding rm_force piped_to_shell whole_word spaced
soft_warn =
    record {
      pattern = record {
        source = codes "git\\s+push\\s+--force";
        regex =
            cat (spaced (codes "git") (codes "push") ∷ plus space ∷ lit_i (codes "--force") ∷ []);
      };
      reason = codes "Force push can destroy remote history";
    }
    ∷ record {
      pattern = record {
        source = codes "git\\s+push\\s+-f\\b";
        regex =
            cat
              (spaced (codes "git") (codes "push") ∷ plus space ∷ lit_i (codes "-f") ∷ bound ∷ []);
      };
      reason = codes "Force push can destroy remote history";
    }
    ∷ record {
      pattern = record {
        source = codes "git\\s+reset\\s+--hard";
        regex =
            cat (spaced (codes "git") (codes "reset") ∷ plus space ∷ lit_i (codes "--hard") ∷ []);
      };
      reason = codes "Hard reset discards uncommitted changes";
    }
    ∷ record {
      pattern = record {
        source = codes "\\bDROP\\s+(TABLE|DATABASE)\\b";
        regex = cat (
            bound
            ∷ lit_i (codes "DROP")
            ∷ plus space
            ∷ alt (lit_i (codes "TABLE")) (lit_i (codes "DATABASE"))
            ∷ bound
            ∷ []);
      };
      reason = codes "Destructive SQL operation";
    }
    ∷ record {
      pattern = record { source = codes "\\bTRUNCATE\\b"; regex = whole_word (codes "TRUNCATE") };
      reason = codes "Destructive SQL operation";
    }
    ∷ record {
      pattern = record {
        source = codes "curl\\s+.*\\|\\s*(ba)?sh";
        regex = piped_to_shell (codes "curl");
      };
      reason = codes "Piping remote script to shell is dangerous";
    }
    ∷ record {
      pattern = record {
        source = codes "wget\\s+.*\\|\\s*(ba)?sh";
        regex = piped_to_shell (codes "wget");
      };
      reason = codes "Piping remote script to shell is dangerous";
    }
    ∷ record {
      pattern = record {
        source = codes "\\bkill\\s+-9\\b";
        regex = cat (bound ∷ spaced (codes "kill") (codes "-9") ∷ bound ∷ []);
      };
      reason = codes "SIGKILL does not allow graceful shutdown";
    }
    ∷ record {
      pattern = record {
        source = codes "\\bchmod\\s+777\\b";
        regex = cat (bound ∷ spaced (codes "chmod") (codes "777") ∷ bound ∷ []);
      };
      reason = codes "World-writable permissions are a security risk";
    }
    ∷ record {
      pattern = record {
        source = codes "\\bsudo\\s+rm\\b";
        regex = cat (bound ∷ spaced (codes "sudo") (codes "rm") ∷ bound ∷ []);
      };
      reason = codes "Elevated removal is risky";
    }
    ∷ record {
      pattern = record { source = codes "\\beval\\b"; regex = whole_word (codes "eval") };
      reason = codes "eval executes arbitrary strings as code";
    }
    ∷ record {
      pattern = record {
        source = codes "rm\\s+-[^\\s]*r[^\\s]*f[^\\s]*\\s+\\S+";
        regex = cat (rm_force ∷ plus non_space ∷ []);
      };
      reason = codes "Recursive force removal — verify the target path";
    }
    ∷ []
