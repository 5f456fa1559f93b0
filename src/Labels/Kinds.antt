-- ===== src/Labels/Kinds.antt =====
-- The sets of labels of the supported kinds of action, and their equality.
use reclient.Prelude.{Bool, ◌&&◌, ◌≡◌, true, ◌↔◌, str_eq, eq_iff, arith}
use reclient.Prelude.Maps.{Eq}
use reclient.Labels.{Labels, no_labels}

abbrev pub tool_labels : Labels
tool_labels = record no_labels { action_type = "tool" }

abbrev pub clang_cpp_labels : Labels
clang_cpp_labels = record {
  action_type = "compile";
  compiler = "clang";
  lang = "cpp";
  action_tool = "";
}

abbrev pub clang_cl_cpp_labels : Labels
clang_cl_cpp_labels = record {
  action_type = "compile";
  compiler = "clang-cl";
  lang = "cpp";
  action_tool = "";
}

abbrev pub nacl_labels : Labels
nacl_labels = record { action_type = "compile"; compiler = "nacl"; lang = "cpp"; action_tool = "" }

abbrev pub clang_link_labels : Labels
clang_link_labels = record no_labels { action_type = "link"; action_tool = "clang" }

abbrev pub nacl_link_labels : Labels
nacl_link_labels = record no_labels { action_type = "link"; action_tool = "nacl" }

abbrev pub llvm_ar_labels : Labels
llvm_ar_labels = record no_labels { action_type = "archive"; action_tool = "llvm" }

abbrev pub clang_lint_labels : Labels
clang_lint_labels = record {
  action_type = "lint";
  compiler = "";
  lang = "cpp";
  action_tool = "clang-tidy";
}

abbrev pub header_abi_dump_labels : Labels
header_abi_dump_labels = record no_labels {
  action_type = "abi-dump";
  action_tool = "header-abi-dumper";
}

abbrev pub javac_labels : Labels
javac_labels = record {
  action_type = "compile";
  compiler = "javac";
  lang = "java";
  action_tool = "";
}

abbrev pub r8_labels : Labels
r8_labels = record no_labels { action_type = "compile"; compiler = "r8" }

abbrev pub d8_labels : Labels
d8_labels = record no_labels { action_type = "compile"; compiler = "d8" }

abbrev pub metalava_labels : Labels
metalava_labels = record {
  action_type = "compile";
  compiler = "metalava";
  lang = "java";
  action_tool = "";
}

abbrev pub sign_apk_labels : Labels
sign_apk_labels = record no_labels { action_type = "apksigning"; compiler = "signapkjar" }

abbrev pub tsc_labels : Labels
tsc_labels = record {
  action_type = "compile";
  compiler = "tsc";
  lang = "typescript";
  action_tool = "";
}

-- `==` of two structs
unfoldable pub labels_beq : Labels → Labels → Bool
labels_beq a b =
    str_eq a.action_type b.action_type
    && str_eq a.compiler b.compiler
    && str_eq a.lang b.lang
    && str_eq a.action_tool b.action_tool

pub labels_beq_iff : (a b : Labels) → (labels_beq a b ≡ true) ↔ (a ≡ b)
unfolding labels_beq
labels_beq_iff a b = ground (
  arith,
  eq_iff a.action_type b.action_type,
  eq_iff a.compiler b.compiler,
  eq_iff a.lang b.lang,
  eq_iff a.action_tool b.action_tool,
)

instance abbrev pub labels_eq : Eq Labels
labels_eq = record { beq = labels_beq; beq_iff = labels_beq_iff }
