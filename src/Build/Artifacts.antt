-- ===== src/Build/Artifacts.antt =====
-- artifact.go: the artifact types. The interface ArtifactBuilder is the record of its method.
use theo_forge.Prelude.{
  Bool, Text, Option, none, some, List, [], is_empty, Result, ok, errorf, fail_if, ◌>>=◌, ◌>>◌,
}
use theo_forge.Int.{ℤ}
use theo_forge.Model.Artifacts.{ArchiveStrategy, ArtifactModel}

pub record ArtifactBuilder : Type 0 where
  pub build : Result ArtifactModel

pub record Artifact : Type 0 where
  pub name : Text
  pub path : Text
  pub from : Text
  pub from_expression : Text
  pub global_name : Text
  pub sub_path : Text
  pub mode : Option ℤ
  pub optional : Option Bool
  pub archive : Option ArchiveStrategy

validate : Artifact → Result (Unit {0})
validate a = fail_if (is_empty a.name) (errorf "name cannot be empty when used" [])

unfoldable pub build : Artifact → Result ArtifactModel
unfolding validate
build a = do
  validate a
  ok (record {
    name = a.name;
    path = a.path;
    from = a.from;
    from_expression = a.from_expression;
    global_name = a.global_name;
    sub_path = a.sub_path;
    mode = a.mode;
    optional = a.optional;
    archive = a.archive;
    s3 = none;
    gcs = none;
    http = none;
    git = none;
    raw = none;
    azure = none;
    oss = none;
    hdfs = none;
    plugin = none;
    artifactory = none;
    artifact_gc = none;
    deleted = none;
    recurse_mode = none;
  })

unfoldable pub with_name : Artifact → Text → Artifact
with_name a name = record a { name = name }

pub record S3Artifact : Type 0 where
  pub artifact : Artifact
  pub bucket : Text
  pub key : Text
  pub endpoint : Text
  pub region : Text

unfoldable pub build_s3 : S3Artifact → Result ArtifactModel
build_s3 a = do
  base ← build a.artifact
  ok (record base {
    s3 = some (record {
      bucket = a.bucket;
      key = a.key;
      endpoint = a.endpoint;
      region = a.region;
      insecure = none;
      access_key_secret = none;
      secret_key_secret = none;
    });
  })

pub record GcsArtifact : Type 0 where
  pub artifact : Artifact
  pub bucket : Text
  pub key : Text

unfoldable pub build_gcs : GcsArtifact → Result ArtifactModel
build_gcs a = do
  base ← build a.artifact
  ok (record base {
    gcs = some (record { bucket = a.bucket; key = a.key; service_account_key_secret = none });
  })

pub record HttpArtifact : Type 0 where
  pub artifact : Artifact
  pub url : Text

unfoldable pub build_http : HttpArtifact → Result ArtifactModel
build_http a = do
  base ← build a.artifact
  ok (record base { http = some (record { url = a.url; auth = none; headers = [] }) })

pub record GitArtifact : Type 0 where
  pub artifact : Artifact
  pub repo : Text
  pub revision : Text
  pub branch : Text
  pub depth : Option ℤ

unfoldable pub build_git : GitArtifact → Result ArtifactModel
build_git a = do
  base ← build a.artifact
  ok (record base {
    git =
        some (record { repo = a.repo; revision = a.revision; branch = a.branch; depth = a.depth });
  })

pub record RawArtifact : Type 0 where
  pub artifact : Artifact
  pub raw_data : Text

unfoldable pub build_raw : RawArtifact → Result ArtifactModel
build_raw a = do
  base ← build a.artifact
  ok (record base { raw = some (record { raw_data = a.raw_data }) })

pub record AzureArtifact : Type 0 where
  pub artifact : Artifact
  pub endpoint : Text
  pub container : Text
  pub blob : Text

unfoldable pub build_azure : AzureArtifact → Result ArtifactModel
build_azure a = do
  base ← build a.artifact
  ok (record base {
    azure = some (record {
      endpoint = a.endpoint;
      container = a.container;
      blob = a.blob;
      account_key_secret = none;
    });
  })

pub record OssArtifact : Type 0 where
  pub artifact : Artifact
  pub bucket : Text
  pub key : Text
  pub endpoint : Text

unfoldable pub build_oss : OssArtifact → Result ArtifactModel
build_oss a = do
  base ← build a.artifact
  ok (record base {
    oss = some (record {
      bucket = a.bucket;
      key = a.key;
      endpoint = a.endpoint;
      access_key_secret = none;
      secret_key_secret = none;
    });
  })

pub record HdfsArtifact : Type 0 where
  pub artifact : Artifact
  pub hdfs_path : Text
  pub addresses : List Text
  pub hdfs_user : Text

unfoldable pub build_hdfs : HdfsArtifact → Result ArtifactModel
build_hdfs a = do
  base ← build a.artifact
  ok (record base {
    hdfs = some (record {
      path = a.hdfs_path;
      addresses = a.addresses;
      hdfs_user = a.hdfs_user;
      force = none;
    });
  })
